-- ===== src/Resolve.antt =====
-- The resolver of addresses (src/rtrace-resolve).
pub mod NameCache
pub mod SortedArray
pub mod Mmaps
