-- ===== src/Text.antt =====
-- The functions of Go's `strings` and `strconv` that the program calls, over bytes.
pub mod Bytes
pub mod Number
pub mod Lines
pub mod Unicode
pub mod Ascii
pub mod Words
