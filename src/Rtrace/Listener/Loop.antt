-- ===== src/Rtrace/Listener/Loop.antt =====
-- `process_data` of src/rtrace/listener.c: the handshake, and the loops that take packets from the
-- buffer and refill_buffer it.
use sp_rtrace.Prelude.{
  ℕ, zero, suc, ◌+◌, ◌*◌, ◌≤◌, ◌≡◌, refl, sym, ap, ◌∙◌, append_assoc, length-append, length-drop,
  arith, Bool, true, false, List, [], ◌∷◌, ◌++◌, Option, none, some, ltb, if◌then◌else◌, length,
  take, drop,
}
use sp_rtrace.Proto.Memory.{Bytes}
use sp_rtrace.Rtrace.Listener.{
  Listener, System, Write, wrote, failed, overflow, flush_data, process_handshake, Result, refused,
  passed, broken, process_packet, buffer_size, hs_buffer_size,
}

-- What `read` returns: bytes, of which none are the end of the pipe, or -1, where EINTR is
-- `interrupted`.
pub data Answer : Type 0 where
  got : Bytes → Answer
  interrupted : Answer
  unreadable : Answer

-- The inner loop ends at the packet `n`, with `before` in the buffer in front of `ptr_in`.
pub data Stop : Type 0 where
  stops : (n : ℕ) (before rest : Bytes) → Listener → Stop
  faults : Stop

-- What the function returns, 0 or -1. `crashed` is an access out of bounds.
pub data Exit : Type 0 where
  returns_0 : Listener → Exit
  returns_error : Listener → Exit
  crashed : Exit

-- `memmove(buffer, ptr_in, n)`, as the `n` bytes from `ptr_in` on look afterwards.
unfoldable pub after_move : Bytes → Bytes → Bytes
after_move before d = take (length d) (drop (length before) (d ++ drop (length d) (before ++ d)))

-- The bytes in front of `ptr_in` after the same.
unfoldable pub before_move : Bytes → Bytes → Bytes
before_move before d = take (length before) (d ++ drop (length d) (before ++ d))

module _ (outs : ℕ → System) where
  unfoldable pub after_process :
      (ℕ → Bytes → Bytes → Listener → Stop) → ℕ → Bytes → Bytes → Result → Stop
  after_process go n before d (refused s) = stops n before d s
  after_process go n before d broken = faults
  after_process go n before d (passed [] rest s) = stops n before rest s
  after_process go n before d (passed (b ∷ bs) rest s) = go (suc n) (before ++ b ∷ bs) rest s

  -- The inner loop; fuel above the number of bytes is never used up. The packet `n` is met by
  -- what `outs n` answers.
  unfoldable pub take_packets : ℕ → ℕ → Bytes → Bytes → Listener → Stop
  take_packets zero n before d s = stops n before d s
  take_packets (suc f) n before d s =
      after_process (take_packets f) n before d (process_packet (outs n) d s)

  -- `flush_data` at the end, whose result is ignored.
  abbrev pub end_with : Write → Exit
  end_with (wrote s) = returns_0 s
  end_with (failed s) = returns_0 s
  end_with overflow = crashed

  abbrev pub finish : ℕ → Listener → Exit
  finish n s = end_with (flush_data (outs n).answer s)

  -- `read` is given BUFFER_SIZE bytes behind the incomplete packet.
  unfoldable pub refill_buffer : Stop → (ℕ → Bytes → Bytes → Listener → Exit) → Exit
  refill_buffer faults go = crashed
  refill_buffer (stops n before rest s) go =
      let after = go n before rest s in
      if ltb (buffer_size * 2) (length rest + buffer_size) then crashed else after

  -- The outer loop, over what the successive calls of `read` return, with whether a stop was
  -- requested by then. EINTR goes on where `ptr_in` was.
  unfoldable pub process_packets : ℕ → Bytes → Bytes → List (Bool × Answer) → Listener → Exit
  process_packets n before d [] s =
      refill_buffer (take_packets (suc (length d)) n before d s) (λ m b rest t. finish m t)
  process_packets n before d ((stop, got []) ∷ reads) s =
      refill_buffer (take_packets (suc (length d)) n before d s) (λ m b rest t. finish m t)
  process_packets n before d ((true, answer) ∷ reads) s =
      refill_buffer (take_packets (suc (length d)) n before d s) (λ m b rest t. finish m t)
  process_packets n before d ((false, got (c ∷ cs)) ∷ reads) s =
      refill_buffer (take_packets (suc (length d)) n before d s)
        (λ m b rest t. process_packets m [] (rest ++ c ∷ cs) reads t)
  process_packets n before d ((false, interrupted) ∷ reads) s =
      refill_buffer (take_packets (suc (length d)) n before d s)
        (λ m b rest t. process_packets m (before_move b rest) (after_move b rest) reads t)
  process_packets n before d ((false, unreadable) ∷ reads) s =
      refill_buffer (take_packets (suc (length d)) n before d s) (λ m b rest t. finish m t)

  -- The `memcpy` of the handshake does not check the size of `hs_buffer`.
  abbrev pub after_handshake : Option (Bytes × Bytes) → List (Bool × Answer) → Listener → Exit
  after_handshake none reads s = returns_error s
  after_handshake (some (hs, d)) reads s =
      let read = process_packets 0 hs d reads (record s { hs_buffer = hs }) in
      if ltb hs_buffer_size (length hs) then crashed else read

  -- `process_data`
  unfoldable pub process_data : Answer → List (Bool × Answer) → Listener → Exit
  process_data (got []) reads s = returns_0 (record s { s_mmaps = [] })
  process_data (got (b ∷ d)) reads s =
      after_handshake (process_handshake (b ∷ d)) reads (record s { s_mmaps = [] })
  process_data interrupted reads s = returns_error (record s { s_mmaps = [] })
  process_data unreadable reads s = returns_error (record s { s_mmaps = [] })

drop_within : (n : ℕ) (xs ys : Bytes) → n ≤ length xs → drop n (xs ++ ys) ≡ drop n xs ++ ys
drop_within zero xs ys h = refl
drop_within (suc n) [] ys h = absurd (omega (arith, h))
drop_within (suc n) (x ∷ xs) ys h = drop_within n xs ys (omega (arith, h))

drop_all : (n : ℕ) (xs ys : Bytes) → length xs ≡ n → drop n (xs ++ ys) ≡ ys
drop_all zero [] ys h = refl
drop_all zero (x ∷ xs) ys h = absurd (omega (arith, h))
drop_all (suc n) [] ys h = absurd (omega (arith, h))
drop_all (suc n) (x ∷ xs) ys h = drop_all n xs ys (omega (arith, h))

take_all : (d : Bytes) → take (length d) d ≡ d
take_all [] = refl
take_all (b ∷ d) = ap (λ l. b ∷ l) (take_all d)

-- Where at least as many bytes were passed as an incomplete packet has, the `memmove` leaves the
-- bytes behind `ptr_in` as they were, so an interrupted `read` does no harm.
pub after_move-same : (before d : Bytes) → length d ≤ length before → after_move before d ≡ d
unfolding after_move
after_move-same before d h =
    let n = length d in
    let l : length (d ++ drop n before) ≡ length before =
      omega (arith, h, length-append d (drop n before), length-drop n before) in
    ap (λ x. take n (drop (length before) (d ++ x))) (drop_within n before d h)
    ∙ ap (λ x. take n (drop (length before) x)) (sym (append_assoc d (drop n before) d))
    ∙ ap (take n) (drop_all (length before) (d ++ drop n before) d l)
    ∙ take_all d
