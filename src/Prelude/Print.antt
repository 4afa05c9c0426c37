-- ===== src/Prelude/Print.antt =====
-- Texts as bytes, and what the C library's `sprintf` makes of integers.
use Prim.Native.String.{String}
use Prim.Native.Char.{code}
use Prim.Native.Nat.{ℕ, zero, suc, ◌+◌, ◌-◌, ◌/◌, ◌%◌, ◌^◌}
use mathlib.Core.List.{List, [], ◌∷◌}
use sp_rtrace.Prelude.Tests.{ltb, ◌==◌, if◌then◌else◌}

-- The bytes of an ASCII text, without the null byte.
abbrev pub codes : String → List ℕ
codes String.[] = []
codes (String.◌∷◌ c s) = code c ∷ codes s

abbrev digit : ℕ → ℕ
digit d = if ltb d 10 then d + b'0' else d - 10 + b'a'

-- The digits in a base, in front of `text`; 32 bits have at most ten of them.
unfoldable pub digits : ℕ → ℕ → ℕ → List ℕ → List ℕ
digits zero base value text = text
digits (suc f) base value text =
    let rest = digits f base (value / base) (digit (value % base) ∷ text) in
    if value / base == 0 then digit (value % base) ∷ text else rest

-- `%x` of an unsigned int, and `0x%x`.
unfoldable pub hex : ℕ → List ℕ
unfolding digits
hex value = digits 10 16 value []

unfoldable pub hex_0x : ℕ → List ℕ
unfolding hex
hex_0x value = b'0' ∷ b'x' ∷ hex value

-- `%2x`: padded by a blank to two characters.
unfoldable pub hex_2 : ℕ → List ℕ
unfolding hex
hex_2 value = if ltb value 16 then b' ' ∷ hex value else hex value

-- `%d` of an int, given as its bit pattern.
unfoldable pub decimal : ℕ → List ℕ
unfolding digits
decimal value =
    if ltb value (2 ^ 31) then digits 10 10 value [] else b'-' ∷ digits 10 10 (2 ^ 32 - value) []
