-- ===== src/Modules.antt =====
-- The modules that trace library functions (src/modules).
pub mod Held
pub mod Memory
pub mod Emulated
pub mod File
pub mod Shmposix
pub mod Shmsysv
