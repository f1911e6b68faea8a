-- ===== src/ExStream.antt =====
-- Ex mode on a file stream (src/vi/ex-stream.cpp, src/vi/ex-stream-line.cpp).
pub mod Line
pub mod Scan
pub mod Stream
pub mod State
pub mod Navigate
pub mod Commands
pub mod Requests
mod Tests
