-- ===== src/Libc.antt =====
-- What the sources use of the C library: files that are read and written at an offset, text that
-- ends in a null byte, decimal numbers. A byte is a number below 256.
pub mod File
pub mod Text
pub mod Decimal
pub mod Int
pub mod Effect
pub mod Scan
pub mod Returns
