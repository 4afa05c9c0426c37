-- ===== src/Modules/File.antt =====
-- src/modules/sp_rtrace_file.c: the traced functions that open and close file descriptors and
-- streams, once `trace_initialize` has run.
pub mod State
pub mod Common
pub mod Trace
pub mod Calls
pub mod Live
pub mod Told
pub mod Kinds
pub mod Report
