-- ===== src/Text.antt =====
-- Text functions that the extension calls: those of the C++ standard library are defined here, and
-- those of DuckDB's `StringUtil`, which are not part of this repository, are a parameter.
pub mod Std
pub mod StringUtil
pub mod Decimal
pub mod Reference
