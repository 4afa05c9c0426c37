-- ===== src/Rtrace.antt =====
-- The launcher of traced processes (src/rtrace): what passes the packets on.
pub mod Listener
