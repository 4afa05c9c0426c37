-- ===== src/Binary/Calls.antt =====
-- A traced call arrives: what the call, argument and backtrace packets of one call do to the trace
-- data.
pub mod View
pub mod Store
pub mod Arrive
pub mod Sequence
