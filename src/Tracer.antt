-- ===== src/Tracer.antt =====
-- The main tracing module (src/modules/sp_rtrace_main.c): the pipe buffer, the packets that it
-- writes, and the registries of modules and resource types.
pub mod Pipe
pub mod Packet
pub mod Filter
pub mod Events
pub mod Call
pub mod Handshake
pub mod Initial
pub mod Register
pub mod Decimal
