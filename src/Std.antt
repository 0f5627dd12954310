-- ===== src/Std.antt =====
-- What the code uses of Rust's standard library: clocks and network addresses.
pub mod Time
pub mod Net
pub mod Str
pub mod Lines
pub mod FilePath
pub mod Number
