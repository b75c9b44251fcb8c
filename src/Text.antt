-- ===== src/Text.antt =====
-- What the programs use of Go's `strings`, `bytes`, `strconv`, `unicode` and `path/filepath`.
pub mod Search
pub mod Trim
pub mod Decimal
pub mod FilePath
pub mod Parts
pub mod Runes
pub mod Space
pub mod Atoi
