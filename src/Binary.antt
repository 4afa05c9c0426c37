-- ===== src/Binary.antt =====
-- The reader of binary trace data (src/rtrace-postproc/parse_binary.c) and the trace data that it
-- fills (src/common/rtrace_data.h, rtrace_data.c).
pub mod Data
pub mod Packets
pub mod Generic
pub mod Framed
pub mod ReadBack
pub mod Loop
pub mod HeapInfo
pub mod Traces
pub mod Calls
pub mod Chunks
pub mod Start
