-- ===== src/Vi/Laws.antt =====
-- What the commands of class vi do (src/vi/vi.cpp).
pub mod Counts
pub mod DeleteMotion
pub mod Delete
pub mod Dot
pub mod Find
pub mod Expand
