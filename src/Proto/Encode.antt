-- ===== src/Proto/Encode.antt =====
-- What the protocol's values look like as bytes, apart from the code that writes or reads them.
use sp_rtrace.Prelude.{
  ℕ, zero, ◌+◌, ◌-◌, ◌/◌, ◌%◌, ◌^◌, ◌<◌, [], ◌∷◌, ◌++◌, ◌≡◌, refl, Option, none, some, arith,
  length, length-append, replicate, length-replicate, All,
}
use sp_rtrace.Proto.Memory.{Bytes}

-- Two bytes, four bytes and eight bytes, the lowest first.
unfoldable pub word : ℕ → Bytes
word v = v % 256 ∷ v / 256 % 256 ∷ []

unfoldable pub dword : ℕ → Bytes
dword v = v % 256 ∷ v / 256 % 256 ∷ v / 65536 % 256 ∷ v / 16777216 % 256 ∷ []

unfoldable pub qword : ℕ → Bytes
qword v = dword v ++ dword (v / 2 ^ 32)

pub length-dword : (v : ℕ) → length (dword v) ≡ 4
unfolding dword
length-dword v = refl

pub length-word : (v : ℕ) → length (word v) ≡ 2
unfolding word
length-word v = refl

pub length-qword : (v : ℕ) → length (qword v) ≡ 8
unfolding qword dword
length-qword v = refl

-- The bytes that bring a string and its two bytes of length to a multiple of four.
unfoldable pub padding : ℕ → ℕ
padding n = (4 - (2 + n) % 4) % 4

abbrev pub padded : Bytes → Bytes
padded s = s ++ replicate (padding (length s)) 0

-- A string with its length in front; a null pointer is an empty length and two more bytes.
unfoldable pub string : Option Bytes → Bytes
string none = dword 0
string (some s) = word (length s + padding (length s)) ++ padded s

pub length-padded : (s : Bytes) → length (padded s) ≡ length s + padding (length s)
length-padded s = omega (
  arith,
  length-append s (replicate (padding (length s)) 0),
  length-replicate (padding (length s)) (zero),
)

pub length-string-some :
    (s : Bytes) → length (string (some s)) ≡ 2 + (length s + padding (length s))
unfolding string
length-string-some s = omega (
  arith,
  length-append (word (length s + padding (length s))) (padded s),
  length-word (length s + padding (length s)),
  length-padded s,
)

pub padding_aligned : (n : ℕ) → (2 + (n + padding n)) % 4 ≡ 0
unfolding padding
padding_aligned n = omega arith

-- The characters of a C string: bytes that are not null.
abbrev pub IsCString : Bytes → Type 0
IsCString = All (λ c. (0 < c) × (c < 256))

-- An argument that is a string or a null pointer, short enough for two bytes of length.
unfoldable pub IsString : Option Bytes → Type 0
IsString none = Unit
IsString (some s) = IsCString s × (length s < 65532)
