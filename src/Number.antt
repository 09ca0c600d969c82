-- ===== src/Number.antt =====
-- The number routines of fflib/v1: parsing (internal/atoi.go, bytenum.go) and printing (iota.go).
pub mod Atoi
pub mod Iota
pub mod ByteNum
