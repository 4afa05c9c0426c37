-- ===== src/Tracer/Packet.antt =====
-- The packet macros of src/modules/sp_rtrace_main.c, lines 141 to 172, over the memory of the pipe
-- buffer.
pub mod Emits
use sp_rtrace.Prelude.{ℕ, ◌+◌, ◌-◌, Bool, List, [], ◌∷◌, Option, none, some}
use sp_rtrace.Proto.Memory.{Mem}
use sp_rtrace.Proto.Write.{Writer, write_dword}
use sp_rtrace.Tracer.Pipe.{Pipe, lock, unlock}

-- The buffer's memory and `_ptr`.
pub record Cursor : Type 0 where
  pub memory : Mem
  pub ptr : ℕ

-- PACKET_WRITE
unfoldable pub put : Writer → Cursor → Cursor
put w c = let (m, n) = w c.memory c.ptr in record { memory = m; ptr = c.ptr + n }

-- PACKET_RESERVE; the place is where `ptr` was.
abbrev pub reserve : ℕ → Cursor → Cursor
reserve n c = record c { ptr = c.ptr + n }

-- PACKET_INSERT
unfoldable pub insert_at : ℕ → Writer → Cursor → Cursor
insert_at p w c = let (m, n) = w c.memory p in record c { memory = m }

-- Consecutive PACKET_WRITE.
unfoldable pub put_all : List Writer → Cursor → Cursor
put_all [] c = c
put_all (w ∷ ws) c = put_all ws (put w c)

-- PACKET_START, the fields that `body` writes, and PACKET_END.
unfoldable pub packet : ℕ → (Cursor → Cursor) → Cursor → Cursor
packet type body c =
    let started = put (write_dword type) c in
    let start = started.ptr in
    let ended = body (reserve 4 started) in
    insert_at start (write_dword (ended.ptr - start - 4)) ended

-- The lock of PACKET_INIT, the packets that `body` writes, and the unlocking of PACKET_FINISH with
-- the number of bytes that it returns.
unfoldable pub send : (Cursor → Cursor) → Bool → Pipe → Option (Pipe × ℕ)
send body answer s = elim (lock s) [
  | none ↦ none
  | some t ↦
      let c = body (record { memory = t.memory; ptr = t.head }) in
      let size = c.ptr - t.head in
      some (unlock t.head size answer (record t { memory = c.memory }), size)
]
