-- ===== src/Libdl.antt =====
-- The loader of libraries, openblt/lib/libdl.
pub mod Sym
