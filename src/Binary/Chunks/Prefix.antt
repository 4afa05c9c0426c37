-- ===== src/Binary/Chunks/Prefix.antt =====
-- The first part of a packet is incomplete, wherever it ends.
use sp_rtrace.Prelude.{
  ℕ, ◌+◌, ◌%◌, ◌^◌, ◌-◌, ◌≤◌, ◌<◌, true, false, [], ◌∷◌, ◌++◌, ◌≡◌, ◌≢◌, refl, ap, ◌∙◌, some, ltb,
  length, length-append, append_assoc, arith, inl, inr, Bool-cases, ltb-false, ltb→lt,
}
use sp_rtrace.Proto.Memory.{Bytes}
use sp_rtrace.Proto.Types.{hs_id}
use sp_rtrace.Proto.Encode.{dword, length-dword}
use sp_rtrace.Proto.RoundTrip.{read_dword-dword}
use sp_rtrace.Tracer.Packet.Emits.{framed}
use sp_rtrace.Binary.Framed.{length-framed}
use sp_rtrace.Binary.Generic.{
  Parser, incomplete, read_header, starts_handshake, exceeds, parse_payload, read_generic_packet,
}

cons_inj : (x y : ℕ) (xs ys : Bytes) → x ∷ xs ≡ y ∷ ys → (x ≡ y) × (xs ≡ ys)
cons_inj x y xs ys h = (cc, cc)

-- The shorter of two first parts of a list is the first part of the longer one.
pub append-split :
    (xs ys zs ws : Bytes)
    → xs ++ ys ≡ zs ++ ws
    → length xs ≤ length zs
    → (vs : Bytes) × (zs ≡ xs ++ vs) × (ys ≡ vs ++ ws)
append-split [] ys zs ws h l = (zs, refl, h)
append-split (x ∷ xs) ys [] ws h l = absurd (omega (arith, l))
append-split (x ∷ xs) ys (z ∷ zs) ws h l =
    let (same, rest) = cons_inj x z (xs ++ ys) (zs ++ ws) h in
    let (vs, front, back) = append-split xs ys zs ws rest (omega (arith, l)) in (vs, cc, back)

module _ (p : Parser) (type n : ℕ) (d : Bytes) (new : 2 ≤ p.rd.hshake.vmajor)
    (small : type < 2 ^ 32) where
  read_header-dword :
      n < 2 ^ 31 - 8
      → read_header p.rd.hshake (dword type ++ (dword n ++ d)) ≡ some ((n + 8, type), d)
  unfolding read_header
  read_header-dword fits =
      let v : ltb p.rd.hshake.vmajor 2 ≡ false = ground arith in
      rw (read_dword-dword, read_dword-dword n d, v) (ap (λ n. some (n, d)) (ground arith))

  starts_handshake-dword :
      type % 256 ≢ hs_id → starts_handshake p.rd.hshake (dword type ++ (dword n ++ d)) ≡ false
  unfolding starts_handshake dword
  starts_handshake-dword ne = ground arith

  -- A header that announces more than there is.
  header_incomplete :
      n < 2 ^ 31 - 8
      → type % 256 ≢ hs_id
      → length d < n
      → read_generic_packet p (dword type ++ (dword n ++ d)) ≡ incomplete
  unfolding read_generic_packet parse_payload exceeds
  header_incomplete fits ne short =
      let whole = dword type ++ (dword n ++ d) in
      let l : length whole ≡ 8 + length d = omega (
        arith,
        length-append (dword type) (dword n ++ d),
        length-append (dword n) d,
        length-dword type,
        length-dword n,
      ) in
      let a : ltb (length whole) 8 ≡ false = ground (arith, l) in
      let b : ltb (n + 8) (2 ^ 31) ≡ true = ground arith in
      let c : ltb (length whole) (n + 8) ≡ true = ground (arith, l) in
      rw (a, read_header-dword fits, starts_handshake-dword ne, b, c)

short_incomplete : (p : Parser) (d : Bytes) → length d < 8 → read_generic_packet p d ≡ incomplete
unfolding read_generic_packet
short_incomplete p d h = let a : ltb (length d) 8 ≡ true = ground arith in rw a

pub read_generic_packet-prefix :
    (p : Parser) (type : ℕ) (bs d x : Bytes)
    → 2 ≤ p.rd.hshake.vmajor
    → type < 2 ^ 32
    → type % 256 ≢ hs_id
    → length bs < 2 ^ 31 - 8
    → framed type bs ≡ d ++ x
    → length d < length (framed type bs)
    → read_generic_packet p d ≡ incomplete
read_generic_packet-prefix p type bs d x new small ne fits e short =
    elim (Bool-cases (ltb (length d) 8)) [
      | inl few ↦ short_incomplete p d (ltb→lt _ _ few)
      | inr enough ↦
          (let header = dword type ++ dword (length bs) in
            let eight : length header ≡ 8 = omega (
              arith,
              length-append (dword type) (dword (length bs)),
              length-dword type,
              length-dword (length bs),
            ) in
            let (v, front, back) =
              append-split header bs d x (append_assoc (dword type) (dword (length bs)) bs ∙ e)
                (omega (arith, eight, ltb-false _ _ enough)) in
            ap (read_generic_packet p) (front ∙ append_assoc (dword type) (dword (length bs)) v)
            ∙ header_incomplete p type (length bs) v new small fits ne (
                omega (
                  arith,
                  short,
                  eight,
                  length-framed type bs,
                  ap length front,
                  length-append header v,
                )))
    ]
