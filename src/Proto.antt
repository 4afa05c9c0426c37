-- ===== src/Proto.antt =====
-- The binary protocol's reading and writing helpers (src/common/sp_rtrace_proto.h), on amd64:
-- little endian, four-byte int, eight-byte pointer.
pub mod Memory
pub mod Encode
pub mod Write
pub mod Read
pub mod RoundTrip
pub mod Types
