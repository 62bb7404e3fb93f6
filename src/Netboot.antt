-- ===== src/Netboot.antt =====
-- The network boot loader, openblt/netboot.
pub mod Packets
pub mod Checksum
pub mod Loads
pub mod Prompt
mod Tests
