-- ===== src/Base/Numbers.antt =====
-- Decimal numerals (`"%d"`, `str(n)`, f"{n:04d}") and the UTF-8 form of a text.
pub mod Decimal
pub mod Utf8
