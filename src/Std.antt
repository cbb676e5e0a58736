-- ===== src/Std.antt =====
-- The parts of Rust's standard library that the program computes with.
pub mod Bytes
pub mod Ip
pub mod IpParse
mod IpTests
