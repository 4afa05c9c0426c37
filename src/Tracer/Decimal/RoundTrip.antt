-- ===== src/Tracer/Decimal/RoundTrip.antt =====
-- A number is read back from its digits.
use sp_rtrace.Prelude.{
  ℕ, zero, suc, ◌+◌, ◌-◌, ◌*◌, ◌/◌, ◌%◌, ◌^◌, ◌<◌, Bool, true, false, [], ◌∷◌, ◌++◌, ◌≡◌, refl, ap,
  ◌∙◌, append_assoc, ◌==◌, if◌then◌else◌, Bool-cases, inl, inr, arith,
}
use sp_rtrace.Proto.Memory.{Bytes}
use sp_rtrace.Tracer.Decimal.{digits, copy_back, itoa, is_digit, atoi_from, atoi}

-- What can follow a number: the end, or no digit.
unfoldable pub ends_number : Bytes → Bool
ends_number [] = true
ends_number (c ∷ str) = if is_digit c then false else true

atoi_from_end : (v : ℕ) (rest : Bytes) → ends_number rest ≡ true → atoi_from v rest ≡ v
unfolding atoi_from ends_number
atoi_from_end v [] h = refl
atoi_from_end v (c ∷ str) h = elim (Bool-cases (is_digit c)) [
  | inl digit ↦ (let bad = rw digit at h in cc)
  | inr other ↦ rw other
]

-- One more digit in front of what follows.
atoi_from_digit :
    (v d : ℕ) (rest : Bytes)
    → d < 10
    → v * 10 + d < 2 ^ 32
    → atoi_from v ((d + b'0') ∷ rest) ≡ atoi_from (v * 10 + d) rest
unfolding atoi_from
atoi_from_digit v d rest h l =
    let digit : is_digit (d + b'0') ≡ true = ground (arith, h) in
    let e : (v * 10 + (d + b'0' - b'0')) % 2 ^ 32 ≡ v * 10 + d = omega (arith, l) in rw (digit, e)

digits_read :
    (f v : ℕ) (rest : Bytes)
    → v < f
    → v < 2 ^ 32
    → atoi_from 0 (copy_back (digits f v) ++ rest) ≡ atoi_from v rest
unfolding digits copy_back
digits_read zero v rest h l = absurd (omega (arith, h))
digits_read (suc f) v rest h l = elim (Bool-cases (v / 10 == 0)) [
  | inl last ↦
      (let e : 0 * 10 + v % 10 ≡ v = ground (arith, last) in
        rw last (
          atoi_from_digit 0 (v % 10) rest (omega arith) (omega arith)
          ∙ ap (λ n. atoi_from n rest) e))
  | inr further ↦
      (let e : v / 10 * 10 + v % 10 ≡ v = omega arith in
        let less : v / 10 < f = ground (arith, further, h) in
        rw further (
          ap (atoi_from 0)
            (append_assoc (copy_back (digits f (v / 10))) ((v % 10 + b'0') ∷ []) rest)
          ∙ digits_read f (v / 10) ((v % 10 + b'0') ∷ rest) less (omega (arith, l))
          ∙ atoi_from_digit (v / 10) (v % 10) rest (omega arith) (omega (arith, l))
          ∙ ap (λ n. atoi_from n rest) e))
]

-- A number below 2 ^ 31 that `_itoa` writes is what `_atoi` reads, if the end of the text or no
-- digit follows.
pub atoi-itoa :
    (v : ℕ) (rest : Bytes) → v < 2 ^ 31 → ends_number rest ≡ true → atoi (itoa v ++ rest) ≡ v
unfolding atoi itoa
atoi-itoa v rest l h =
    digits_read (suc v) v rest (omega arith) (omega (arith, l)) ∙ atoi_from_end v rest h
