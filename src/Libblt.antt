-- ===== src/Libblt.antt =====
-- The library of the servers, openblt/lib/libblt.
pub mod Hash
pub mod Disk
