-- ===== src/Postproc.antt =====
-- The filters of the post-processor (src/rtrace-postproc/filter.c).
pub mod Leaks
pub mod Blocks
pub mod Select
