-- ===== src/Vi.antt =====
-- Class vi (src/vi/vi.cpp, include/wex/vi.h): its state, and the methods that the commands share.
-- `E` is everything around it: the component, the frame, the macros and registers, and the part of
-- class ex that is modelled elsewhere; what these do is the record `Stc`. A position that may be -1
-- is an integer. Counts do not come near 2^31 by multiplying.
pub mod Component
pub mod Count
pub mod Methods
pub mod Motions
pub mod MotionTable
pub mod Insert
pub mod OtherActions
pub mod Others
pub mod MotionCommand
pub mod Parse
pub mod Keys
pub mod Laws
mod Sample
mod Tests
