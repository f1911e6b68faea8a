-- ===== src/Ex.antt =====
-- The ex component (src/vi/ex.cpp, src/vi/util.cpp).
pub mod Buffers
pub mod Expansion
pub mod Command
pub mod Markers
mod Tests
