-- ===== src/Proto/RoundTrip.antt =====
-- Reading back what `Encode` describes, with any bytes behind it.
use sp_rtrace.Prelude.{
  ℕ, zero, suc, ◌+◌, ◌/◌, ◌%◌, ◌^◌, ◌<◌, [], ◌∷◌, ◌++◌, ◌≡◌, refl, ap, Option, none, some, arith,
  length, replicate,
}
use mathlib.Core.List.{append_assoc}
use sp_rtrace.Proto.Memory.{Bytes}
use sp_rtrace.Proto.Encode.{
  word, dword, qword, padding, padded, string, length-padded, IsCString, IsString,
}
use sp_rtrace.Proto.Read.{
  read_byte, read_word, read_dword, read_dword2long, sign_extend, read_pointer, read_chunk,
  c_string, read_text, read_stringa,
}

pub read_word-word : (v : ℕ) (rest : Bytes) → read_word (word v ++ rest) ≡ some (v % 65536, rest)
unfolding read_word read_byte word
read_word-word v rest = ap (λ n. some (n, rest)) (omega arith)

pub read_dword-dword :
    (v : ℕ) (rest : Bytes) → read_dword (dword v ++ rest) ≡ some (v % 2 ^ 32, rest)
unfolding read_dword read_word read_byte dword
read_dword-dword v rest = ap (λ n. some (n, rest)) (omega arith)

pub read_dword2long-dword :
    (v : ℕ) (rest : Bytes)
    → read_dword2long (dword v ++ rest) ≡ some (sign_extend (v % 2 ^ 32), rest)
unfolding read_dword2long
read_dword2long-dword v rest = rw (read_dword-dword v rest)

pub read_pointer-qword :
    (v : ℕ) (rest : Bytes) → read_pointer (qword v ++ rest) ≡ some (v % 2 ^ 64, rest)
unfolding read_pointer qword
read_pointer-qword v rest =
    rw
      (
        append_assoc (dword v) (dword (v / 2 ^ 32)) rest,
        read_dword-dword v,
        read_dword-dword (v / 2 ^ 32) rest,
      )
      (ap (λ n. some (n, rest)) (omega arith))

pub read_chunk-append : (s rest : Bytes) → read_chunk (length s) (s ++ rest) ≡ some (s, rest)
unfolding read_chunk
read_chunk-append [] rest = refl
read_chunk-append (c ∷ s) rest = rw (read_chunk-append s rest)

-- Padding is not part of the text.
pub c_string-padded : (s : Bytes) (k : ℕ) → IsCString s → c_string (s ++ replicate k 0) ≡ s
unfolding c_string
c_string-padded [] zero h = refl
c_string-padded [] (suc k) h = refl
c_string-padded (c ∷ s) k h = ground (arith, c_string-padded s k h.1)

-- The text that comes back for an argument: a null pointer comes back as the empty string.
abbrev pub text_of : Option Bytes → Bytes
text_of none = []
text_of (some s) = s

read_text-append :
    (s rest : Bytes) → 0 < length s → read_text (length s) (s ++ rest) ≡ some (s, rest)
unfolding read_text
read_text-append [] rest h = absurd (omega arith)
read_text-append (c ∷ s) rest h = read_chunk-append (c ∷ s) rest

padding-pos : (n : ℕ) → 0 < n + padding n
unfolding padding
padding-pos n = omega arith

padding-lt : (n : ℕ) → padding n < 4
unfolding padding
padding-lt n = omega arith

read_null : (rest : Bytes) → read_stringa (dword 0 ++ rest) ≡ some ([], rest)
unfolding read_stringa read_text dword read_word read_byte read_chunk c_string
read_null rest = refl

-- For a null pointer or a string of less than 65532 characters, `read_stringa` gives the text back
-- from the encoded string and stops right behind it; a null pointer comes back as the empty text.
pub read_stringa-string :
    (s : Option Bytes)
    → IsString s
    → (rest : Bytes) → read_stringa (string s ++ rest) ≡ some (text_of s, rest)
unfolding read_stringa string IsString
read_stringa-string none h rest = read_null rest
read_stringa-string (some s) h rest =
    let n = length s in
    let e : (n + padding n) % 65536 ≡ length (padded s) =
      omega (arith, length-padded s, padding-lt n) in
    rw (
      append_assoc (word (n + padding n)) (padded s) rest,
      read_word-word (n + padding n),
      e,
      read_text-append (padded s) rest (omega (arith, e, padding-pos n, length-padded s)),
      c_string-padded s (padding n) h.0,
    )
