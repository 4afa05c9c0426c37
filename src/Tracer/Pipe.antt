-- ===== src/Tracer/Pipe.antt =====
-- The pipe buffer of src/modules/sp_rtrace_main.c, lines 285 to 369: 8192 bytes, of which the lower
-- half is sent when it is full.
pub mod Move
pub mod Stream
use sp_rtrace.Prelude.{
  ℕ, zero, suc, ◌+◌, Bool, true, false, ◌++◌, Option, none, some, ltb, ◌==◌, not, if◌then◌else◌,
}
use sp_rtrace.Proto.Memory.{Bytes, Mem, update, slice}

abbrev pub buffer_size : ℕ
buffer_size = 4096

-- `memory` is `pipe_buffer`, at address 0, and `head` is `pipe_buffer_head`. `written` holds all
-- bytes that the other end of the pipe has been given. `tracing` is what the tracing modules were
-- last told by `enable_tracing`.
pub record Pipe : Type 0 where
  pub memory : Mem
  pub head : ℕ
  pub locked : Bool
  pub enable : Bool
  pub tracing : Bool
  pub buffering : Bool
  pub fd : ℕ
  pub written : Bytes

-- `answer` says whether `write` succeeds.
unfoldable pub flush : Bool → Pipe → Pipe
flush answer s =
    if answer
    then record s { written = s.written ++ slice s.memory 0 s.head; head = 0 }
    else record s { tracing = false; enable = false; fd = 0; head = 0 }

-- The spinlock: a locked buffer keeps the caller waiting, which is `none`.
unfoldable pub lock : Pipe → Option Pipe
lock s = if s.locked then none else some (record s { locked = true })

-- `while (head < end) *head++ = *ptr++`, for the number of rounds that are left.
unfoldable pub move : ℕ → Mem → ℕ → ℕ → Mem
move zero m head ptr = m
move (suc n) m head ptr = move n (update m head (m ptr)) (head + 1) (ptr + 1)

-- `flush` leaves the head at 0, so `size` bytes are moved.
unfoldable pub unlock : ℕ → ℕ → Bool → Pipe → Pipe
unlock ptr size answer s =
    if not (ptr == s.head)
    then s
    else if ltb buffer_size (ptr + size)
    then (let t = flush answer s in
        record t { memory = move size t.memory 0 ptr; head = size; locked = false })
    else (let t = record s { head = s.head + size } in
        let u = if not s.buffering then flush answer t else t in record u { locked = false })

unfoldable pub reset : Pipe → Pipe
reset s = record s { head = 0 }
