-- ===== src/Utils.antt =====
-- The utilities, utils.
pub mod Fdevent
