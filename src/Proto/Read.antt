-- ===== src/Proto/Read.antt =====
-- `read_byte`, `read_word`, `read_dword`, `read_dword2long`, `read_pointer`, and
-- `read_stringa`. A reader takes what is left of the buffer from the data pointer on, and returns
-- the value and what is left behind it; `none` is a read past the end of the buffer.
use sp_rtrace.Prelude.{
  ℕ, zero, suc, ◌+◌, ◌-◌, ◌*◌, ◌^◌, [], ◌∷◌, Option, none, some, ◌==◌, ltb, if◌then◌else◌,
}
use sp_rtrace.Proto.Memory.{Bytes}

abbrev pub Reader : Type 0 → Type 0
Reader A = Bytes → Option (A × Bytes)

abbrev pub and_then : {A B : Type 0} → Option (A × Bytes) → (A → Reader B) → Option (B × Bytes)
and_then none f = none
and_then (some (a, rest)) f = f a rest

infixl 5 ◌>>=◌
abbrev pub ◌>>=◌ : {A B : Type 0} → Reader A → (A → Reader B) → Reader B
m >>= f = λ d. and_then (m d) f

abbrev pub pure : {A : Type 0} → A → Reader A
pure a d = some (a, d)

unfoldable pub read_byte : Reader ℕ
read_byte [] = none
read_byte (b ∷ d) = some (b, d)

unfoldable pub read_word : Reader ℕ
read_word = do b₀ ← read_byte; b₁ ← read_byte; pure (b₀ + 256 * b₁)

unfoldable pub read_dword : Reader ℕ
read_dword = do w₀ ← read_word; w₁ ← read_word; pure (w₀ + 65536 * w₁)

-- An int, as an unsigned long: its sign is extended.
abbrev pub sign_extend : ℕ → ℕ
sign_extend v = if ltb v (2 ^ 31) then v else 2 ^ 64 - 2 ^ 32 + v

unfoldable pub read_dword2long : Reader ℕ
read_dword2long = do v ← read_dword; pure (sign_extend v)

unfoldable pub read_pointer : Reader ℕ
read_pointer = do d₀ ← read_dword; d₁ ← read_dword; pure (d₀ + 2 ^ 32 * d₁)

-- `memcpy` of `n` bytes.
unfoldable pub read_chunk : ℕ → Reader Bytes
read_chunk zero d = some ([], d)
read_chunk (suc n) [] = none
read_chunk (suc n) (b ∷ d) = and_then (read_chunk n d) (λ bs rest. some (b ∷ bs, rest))

-- What a `char*` stands for: the bytes in front of the first null byte.
unfoldable pub c_string : Bytes → Bytes
c_string [] = []
c_string (c ∷ s) = if c == 0 then [] else c ∷ c_string s

-- An empty length is followed by two more bytes.
unfoldable pub read_text : ℕ → Reader Bytes
read_text zero = do _ ← read_chunk 2; pure []
read_text (suc n) = read_chunk (suc n)

unfoldable pub read_stringa : Reader Bytes
read_stringa = do len ← read_word; text ← read_text len; pure (c_string text)
