-- ===== src/Tracer/Decimal.antt =====
-- `_itoa` and `_atoi` of src/modules/sp_rtrace_main.c, for numbers that are not negative.
pub mod RoundTrip
use sp_rtrace.Prelude.{
  ℕ, zero, suc, ◌+◌, ◌-◌, ◌*◌, ◌/◌, ◌%◌, ◌^◌, Bool, List, [], ◌∷◌, ◌++◌, ◌==◌, ◌&&◌, leb,
  if◌then◌else◌,
}
use sp_rtrace.Proto.Memory.{Bytes}

-- The digits in `tmp`, the last one first; each round divides, so there are at most as many rounds
-- as the value and one.
unfoldable pub digits : ℕ → ℕ → Bytes
digits zero value = []
digits (suc f) value =
    let rest = digits f (value / 10) in (value % 10 + b'0') ∷ (if value / 10 == 0 then [] else rest)

-- `do { *ptr_buffer++ = *ptr--; } while (ptr >= tmp);`
unfoldable pub copy_back : Bytes → Bytes
copy_back [] = []
copy_back (d ∷ ds) = copy_back ds ++ d ∷ []

unfoldable pub itoa : ℕ → Bytes
itoa value = copy_back (digits (suc value) value)

abbrev pub is_digit : ℕ → Bool
is_digit c = leb b'0' c && leb c b'9'

-- The loop of `_atoi`; the value is the bit pattern of an int.
unfoldable pub atoi_from : ℕ → Bytes → ℕ
atoi_from value [] = value
atoi_from value (c ∷ str) =
    let next = atoi_from ((value * 10 + (c - b'0')) % 2 ^ 32) str in
    if is_digit c then next else value

unfoldable pub atoi : Bytes → ℕ
atoi = atoi_from 0
