-- ===== src/Binary/Loop/Steps.antt =====
-- One packet of the inner loop, and its fuel.
use sp_rtrace.Prelude.{
  ℕ, zero, suc, ◌+◌, ◌%◌, ◌^◌, ◌-◌, ◌≤◌, ◌<◌, false, List, [], ◌∷◌, ◌++◌, ◌≡◌, ◌≢◌, refl, ◌∙◌, some,
  ◌==◌, leb, ◌||◌, length, drop, length-drop, arith, Bool-cases, inl, inr,
}
use sp_rtrace.Proto.Memory.{Bytes}
use sp_rtrace.Proto.Types.{hs_id}
use sp_rtrace.Tracer.Packet.Emits.{framed}
use sp_rtrace.Binary.Framed.{read_generic_packet-framed, length-framed}
use sp_rtrace.Binary.Generic.{
  Parser, Outcome, incomplete, unknown, fault, parsed, finish, dispatch, read_generic_packet,
}
use sp_rtrace.Binary.Loop.{Progress, ends_loop, after_packet, parse_packets, parse_buffer}

ends_loop-pos : (len : ℕ) → ends_loop len ≡ false → 0 < len
unfolding ends_loop
ends_loop-pos len h = ground arith

-- Two ways to go on that agree behind every whole packet.
after_packet_congr :
    (go go' : Parser → Bytes → Progress) (p : Parser) (d : Bytes)
    → ((q : Parser) (len : ℕ) → 0 < len → go q (drop len d) ≡ go' q (drop len d))
    → (o : Outcome) → after_packet go p d o ≡ after_packet go' p d o
unfolding after_packet
after_packet_congr go go' p d h incomplete = refl
after_packet_congr go go' p d h (unknown q) = refl
after_packet_congr go go' p d h fault = refl
after_packet_congr go go' p d h (parsed len q) = elim (Bool-cases (ends_loop len)) [
  | inl e ↦ rw e
  | inr e ↦ rw e (h q len (ends_loop-pos len e))
]

-- Each round takes at least one byte, so more fuel than bytes makes no difference.
parse_packets_fuel :
    (f g : ℕ) (p : Parser) (d : Bytes)
    → length d < f
    → length d < g
    → parse_packets f p d ≡ parse_packets g p d
unfolding parse_packets read_generic_packet after_packet
parse_packets_fuel zero g p d h k = absurd (omega arith)
parse_packets_fuel (suc f) zero p d h k = absurd (omega arith)
parse_packets_fuel (suc f) (suc g) p [] h k = refl
parse_packets_fuel (suc f) (suc g) p (b ∷ d) h k =
    after_packet_congr (parse_packets f) (parse_packets g) p (b ∷ d)
      (λ q len pos.
        parse_packets_fuel f g q (drop len (b ∷ d)) (omega (arith, length-drop len (b ∷ d)))
          (omega (arith, length-drop len (b ∷ d))))
      (read_generic_packet p (b ∷ d))

-- The fuel of the inner loop is never used up: one round of it is one call of
-- `read_generic_packet`, and the rest is the same loop on what is left.
pub parse_buffer_lem :
    (p : Parser) (d : Bytes)
    → parse_buffer p d ≡ after_packet parse_buffer p d (read_generic_packet p d)
unfolding parse_buffer parse_packets read_generic_packet after_packet
parse_buffer_lem p [] = refl
parse_buffer_lem p (b ∷ d) =
    after_packet_congr (parse_packets (suc (length d))) parse_buffer p (b ∷ d)
      (λ q len pos.
        parse_packets_fuel (suc (length d)) (suc (length (drop len (b ∷ d)))) q (drop len (b ∷ d))
          (omega (arith, length-drop len (b ∷ d))) (omega arith))
      (read_generic_packet p (b ∷ d))

drop-append : {A : Type 0} (xs ys : List A) → drop (length xs) (xs ++ ys) ≡ ys
drop-append [] ys = refl
drop-append (x ∷ xs) ys = drop-append xs ys

-- A framed packet of a known type is taken off the buffer.
pub parse_buffer-framed :
    (p q : Parser) (type : ℕ) (bs rest : Bytes)
    → 2 ≤ p.rd.hshake.vmajor
    → type < 2 ^ 32
    → type % 256 ≢ hs_id
    → length bs < 2 ^ 31 - 8
    → dispatch type p (bs ++ rest) ≡ some (some q)
    → parse_buffer p (framed type bs ++ rest) ≡ parse_buffer q rest
unfolding after_packet finish ends_loop
parse_buffer-framed p q type bs rest new small ne fits e =
    let keep : (length bs + 8 == 0 || leb (2 ^ 31) (length bs + 8)) ≡ false = ground arith in
    let l : length bs + 8 ≡ length (framed type bs) = omega (arith, length-framed type bs) in
    parse_buffer_lem p (framed type bs ++ rest)
    ∙ rw (
      read_generic_packet-framed p type bs rest new small ne fits,
      e,
      keep,
      l,
      drop-append (framed type bs) rest,
    )
