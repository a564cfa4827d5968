-- ===== src/System.antt =====
-- The state of the firmware, and the kernel that it runs on.
pub mod Kernel
pub mod World
pub mod Keeps
