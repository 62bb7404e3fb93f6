-- ===== src/Vfs.antt =====
-- The file server, openblt/srv/vfs.
pub mod Path
pub mod Mounts
pub mod Rootfs
pub mod Bootfs
pub mod Shm
pub mod Server
