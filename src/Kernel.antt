-- ===== src/Kernel.antt =====
-- The kernel, openblt/kernel.
pub mod State
pub mod Resource
pub mod Task
pub mod Ring
pub mod Memory
pub mod Aspace
pub mod Heap
pub mod Area
pub mod Sem
pub mod Port
pub mod Others
pub mod System
mod Tests
