-- ===== src/Address.antt =====
-- The addresses and ranges of ex commands (src/vi/address.cpp, src/vi/addressrange.cpp).
pub mod Line
pub mod Range
pub mod Commands
pub mod RangeCommands
pub mod RangeParse
pub mod Substitution
pub mod Replacement
pub mod Global
mod Tests
