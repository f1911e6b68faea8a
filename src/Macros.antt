-- ===== src/Macros.antt =====
-- The macros of ex and vi (src/vi/macros.cpp).
pub mod Registers
pub mod Variable
pub mod Store
pub mod Fsm
pub mod Template
pub mod Mode
mod Tests
