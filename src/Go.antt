-- ===== src/Go.antt =====
-- What the code uses of Go's standard library: `unicode/utf8` and `unicode/utf16`.
pub mod Utf8
pub mod Utf16
