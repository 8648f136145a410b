-- ===== src/CLib.antt =====
-- What the programs use of C's standard library, by its documented behaviour.
pub mod Stdio
pub mod Tokens
pub mod Numerals
pub mod Format
