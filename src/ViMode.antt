-- ===== src/ViMode.antt =====
-- The modes of vi (src/vi/mode.cpp, include/wex/vi-mode.h): the state machine vi_fsm and class
-- vi_mode. The callbacks given to the constructor, the component and the frame are outside; what is
-- called of them is the list of effects, in order. Trace messages are not modelled.
pub mod Machine
pub mod Transition
mod Tests
