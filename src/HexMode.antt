-- ===== src/HexMode.antt =====
-- Hex mode: the layout of a buffer of bytes as text (src/factory/hexmode.cpp), one line of it
-- (src/stc/hexmode-line.cpp, src/stc/hexmode-line.h), and the mode itself (src/stc/hexmode.cpp).
-- What the component is told is a list of effects, in order; what it answers is a parameter.
pub mod Layout
pub mod Fields
pub mod Buffer
pub mod Edit
pub mod Target
mod Tests
