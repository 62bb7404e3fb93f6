-- ===== src/Hiptop.antt =====
-- The tools of hiptop.
pub mod Utf8
pub mod KanaMap
pub mod Index
mod Tests
