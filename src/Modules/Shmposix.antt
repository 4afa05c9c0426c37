-- ===== src/Modules/Shmposix.antt =====
-- src/modules/sp_rtrace_shmposix.c: shared memory objects, their descriptors and mappings.
pub mod Names
pub mod Distinct
pub mod Trace
pub mod Mapped
