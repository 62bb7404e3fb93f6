-- ===== src/Libposix.antt =====
-- The POSIX library, openblt/lib/libposix.
pub mod Fdl
