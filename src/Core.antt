-- ===== src/Core.antt =====
-- The helpers of the core library (src/core/util.cpp) and the sort of lines (src/factory/sort.cpp).
pub mod Text
mod Tests
