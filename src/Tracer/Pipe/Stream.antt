-- ===== src/Tracer/Pipe/Stream.antt =====
-- What reaches the pipe: nothing is lost, duplicated or put out of order.
use native.Mathlib.Nat.{zero-add}
use sp_rtrace.Prelude.{
  ◌+◌, ◌≤◌, Bool, true, false, ◌++◌, ◌≡◌, refl, sym, ap₂, ◌∙◌, arith, ltb, length, append_assoc,
  inl, inr, Bool-cases, append-nil, ==_self,
}
use sp_rtrace.Proto.Memory.{
  Bytes, slice, store, slice_congr, slice-append, slice-store, store_outside,
}
use sp_rtrace.Tracer.Pipe.{Pipe, buffer_size, flush, unlock}
use sp_rtrace.Tracer.Pipe.Move.{slice-move}

-- All bytes of finished packets: those in the pipe, and those that wait in the buffer.
unfoldable pub stream : Pipe → Bytes
stream s = s.written ++ slice s.memory 0 s.head

-- A packet is stored at the head of the locked buffer.
abbrev pub filled : Pipe → Bytes → Pipe
filled s bs = record s { memory = store s.memory s.head bs }

slice-filled :
    (s : Pipe) (bs : Bytes) → slice (store s.memory s.head bs) 0 s.head ≡ slice s.memory 0 s.head
slice-filled s bs =
    slice_congr _ _ 0 s.head (λ a l u. store_outside s.memory s.head bs a (omega arith))

slice-filled_all :
    (s : Pipe) (bs : Bytes)
    → slice (store s.memory s.head bs) 0 (s.head + length bs) ≡ slice s.memory 0 s.head ++ bs
slice-filled_all s bs =
    slice-append (store s.memory s.head bs) 0 s.head (length bs)
    ∙ ap₂ ◌++◌ (slice-filled s bs) (rw (zero-add s.head) (slice-store s.memory s.head bs))

abbrev pub finish : Pipe → Bytes → Bool → Pipe
finish s bs answer = unlock s.head (length bs) answer (filled s bs)

-- Whichever way `pipe_buffer_unlock` goes, a packet that is stored at the head of the buffer comes
-- behind all bytes sent or buffered before, if `write` succeeds.
pub stream-finish : (s : Pipe) (bs : Bytes) → stream (finish s bs true) ≡ stream s ++ bs
unfolding stream unlock flush slice
stream-finish s bs = elim (Bool-cases (ltb buffer_size (s.head + length bs))) [
  | inl full ↦ rw (
    ==_self s.head,
    full,
    slice-move (length bs) (store s.memory s.head bs) 0 s.head (omega arith),
    slice-store s.memory s.head bs,
    slice-filled s bs,
  )
  | inr room ↦ elim (Bool-cases s.buffering) [
    | inl keep ↦ rw (==_self s.head, room, keep, slice-filled_all s bs) (sym (append_assoc _ _ bs))
    | inr pass ↦
        rw (==_self s.head, room, pass, slice-filled_all s bs, append-nil)
          (sym (append_assoc _ _ bs))
  ]
]

-- Where the buffer stays in bounds: the part in use is never more than the half that is sent.
pub record IsReady (s : Pipe) : Type 0 where
  pub unlocked : s.locked ≡ false
  pub below : s.head ≤ buffer_size

-- Where the head was in the lower half and the packet fits that half, finishing it leaves the
-- buffer unlocked and the head in the lower half, whether `write` succeeds or not.
pub finish-IsReady :
    (s : Pipe) (bs : Bytes) (answer : Bool)
    → s.head ≤ buffer_size
    → length bs ≤ buffer_size
    → IsReady (finish s bs answer)
unfolding unlock flush slice
finish-IsReady s bs answer h l = ground arith

-- With buffering off and an empty buffer, a packet that fits half of the buffer is in the pipe
-- when it is finished, and the buffer is empty again, if `write` succeeds.
pub finish-sent :
    (s : Pipe) (bs : Bytes)
    → s.buffering ≡ false
    → s.head ≡ 0
    → length bs ≤ buffer_size
    → ((finish s bs true).head ≡ 0) × ((finish s bs true).written ≡ s.written ++ bs)
unfolding unlock flush slice
finish-sent s bs off empty l =
    let room : ltb buffer_size (s.head + length bs) ≡ false = ground arith in
    rw (==_self s.head, room, off, slice-filled_all s bs, empty) (refl, refl)

pub finish-enable : (s : Pipe) (bs : Bytes) → (finish s bs true).enable ≡ s.enable
unfolding unlock flush
finish-enable s bs = ground arith

-- A flush that succeeds leaves nothing behind.
pub flush-written : (s : Pipe) → (flush true s).written ≡ stream s
unfolding flush stream
flush-written s = refl
