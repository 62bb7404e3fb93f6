-- ===== src/Libc.antt =====
-- The C library, openblt/lib/libc.
mod Tests
pub mod Memory
pub mod Strings
pub mod Snprintf
