-- ===== src/Rtrace/Listener/Strings.antt =====
-- `read_string` on the strings that the tracing module writes.
use sp_rtrace.Prelude.{
  ℕ, ◌+◌, ◌%◌, ◌≤◌, ◌<◌, false, ◌∷◌, ◌++◌, ◌≡◌, refl, ◌∙◌, Option, none, some, leb, length,
  length-append, append_assoc, arith,
}
use sp_rtrace.Proto.Memory.{Bytes}
use sp_rtrace.Proto.Encode.{dword, word, padding, padded, string, length-string-some, IsString}
use sp_rtrace.Proto.Read.{read_byte, read_word, read_stringa}
use sp_rtrace.Proto.RoundTrip.{read_word-word, read_stringa-string, text_of}
use sp_rtrace.Rtrace.Listener.{read_string, read_settings, path_max}

read_string-short :
    (d rest : Bytes) (n : ℕ)
    → read_word d ≡ some (n, rest)
    → n < path_max
    → read_string d ≡ read_stringa d
unfolding read_string read_stringa
read_string-short d rest n h short = let l : leb path_max n ≡ false = ground arith in rw (h, l) refl

read_null : (rest : Bytes) → read_word (dword 0 ++ rest) ≡ some (0, 0 ∷ 0 ∷ rest)
unfolding read_word read_byte dword
read_null rest = refl

-- A null pointer or a string that fits the buffer of PATH_MAX bytes with its padding.
pub read_string-string :
    (s : Option Bytes)
    → IsString s
    → length (string s) ≤ path_max
    → (rest : Bytes) → read_string (string s ++ rest) ≡ some (text_of s, rest)
unfolding string
read_string-string none h fits rest =
    read_string-short (dword 0 ++ rest) (0 ∷ 0 ∷ rest) 0 (read_null rest) (omega arith)
    ∙ read_stringa-string none h rest
read_string-string (some s) h fits rest =
    let n = length s + padding (length s) in
    read_string-short (string (some s) ++ rest) (padded s ++ rest) (n % 65536)
      (rw (append_assoc (word n) (padded s) rest) (read_word-word n (padded s ++ rest)))
      (omega (arith, fits, length-string-some s))
    ∙ read_stringa-string (some s) h rest

pub read_settings-string :
    (a b : Option Bytes)
    → IsString a
    → IsString b
    → length (string a ++ string b) ≤ path_max
    → (rest : Bytes)
    → read_settings ((string a ++ string b) ++ rest) ≡ some ((text_of a, text_of b), rest)
read_settings-string a b h k fits rest =
    let l = length-append (string a) (string b) in
    rw
      (
        append_assoc (string a) (string b) rest,
        read_string-string a h (omega (arith, fits, l)),
        read_string-string b k (omega (arith, fits, l)),
      )
      refl
