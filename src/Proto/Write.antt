-- ===== src/Proto/Write.antt =====
-- `write_byte`, `write_dword`, `write_pointer` and `write_string`. A writer is given the value, the
-- memory and the address, and returns the new memory and the number of bytes written.
use sp_rtrace.Prelude.{
  ℕ, zero, suc, ◌+◌, ◌-◌, ◌%◌, ◌<◌, ◌≤◌, true, false, [], ◌∷◌, ◌++◌, ◌≡◌, ap, ap₂, ◌∙◌, sym, Option,
  none, some, arith, length, ◌==◌, if◌then◌else◌, replicate,
}
use sp_rtrace.Proto.Memory.{Bytes, Mem, update, store, store-append, store_comm}
use sp_rtrace.Proto.Encode.{
  word, dword, qword, padding, padded, string, length-dword, length-qword, length-word,
  length-string-some, padding_aligned,
}

abbrev pub Writer : Type 0
Writer = Mem → ℕ → Mem × ℕ

unfoldable pub write_byte : ℕ → Writer
write_byte v m p = (store m p (v % 256 ∷ []), 1)

unfoldable pub write_dword : ℕ → Writer
write_dword v m p = (store m p (dword v), 4)

unfoldable pub write_pointer : ℕ → Writer
write_pointer v m p = (store m p (qword v), 8)

-- `while (*str) *ptr++ = *str++`
unfoldable pub copy_string : Mem → ℕ → Bytes → Mem × ℕ
copy_string m p [] = (m, p)
copy_string m p (c ∷ s) = copy_string (update m p c) (p + 1) s

-- `while (size & 3) { size++; *ptr++ = 0; }`, which needs at most three rounds.
unfoldable pub pad_string : ℕ → Mem → ℕ → ℕ → Mem × ℕ
pad_string zero m p size = (m, size)
pad_string (suc f) m p size =
    let more = pad_string f (update m p 0) (p + 1) (size + 1) in
    if size % 4 == 0 then (m, size) else more

unfoldable pub write_string : Option Bytes → Writer
write_string none m p = write_dword 0 m p
write_string (some s) m p =
    let (m₁, ptr) = copy_string m (p + 2) s in
    let (m₂, size) = pad_string 3 m₁ ptr (ptr - p) in (store m₂ p (word (size - 2)), size)

-- The writer stores exactly `bs` and returns how many they are.
pub record Writes (w : Writer) (bs : Bytes) : Type 0 where
  pub run : (m : Mem) (p : ℕ) → w m p ≡ (store m p bs, length bs)

pub write_dword-Writes : (v : ℕ) → Writes (write_dword v) (dword v)
unfolding write_dword
write_dword-Writes v = record {
  run = λ m p. ap (λ n. (store m p (dword v), n)) (sym (length-dword v));
}

pub write_pointer-Writes : (v : ℕ) → Writes (write_pointer v) (qword v)
unfolding write_pointer
write_pointer-Writes v = record {
  run = λ m p. ap (λ n. (store m p (qword v), n)) (sym (length-qword v));
}

pub copy_string-store :
    (m : Mem) (p : ℕ) (s : Bytes) → copy_string m p s ≡ (store m p s, p + length s)
unfolding copy_string store
copy_string-store m p [] = ap (λ n. (m, n)) (omega arith)
copy_string-store m p (c ∷ s) =
    copy_string-store (update m p c) (p + 1) s
    ∙ ap (λ n. (store (update m p c) (p + 1) s, n)) (omega arith)

-- The loop stops at the first multiple of four.
pad_string-store :
    (f k : ℕ) (m : Mem) (p size : ℕ)
    → (size + k) % 4 ≡ 0
    → k ≤ f
    → f < 4
    → pad_string f m p size ≡ (store m p (replicate k 0), size + k)
unfolding pad_string store
pad_string-store zero zero m p size h l u = ap (λ n. (m, n)) (omega arith)
pad_string-store zero (suc k) m p size h l u = absurd (omega arith)
pad_string-store (suc f) zero m p size h l u =
    let e : (size % 4 == 0) ≡ true = ground arith in rw e (ap (λ n. (m, n)) (omega arith))
pad_string-store (suc f) (suc k) m p size h l u =
    let e : (size % 4 == 0) ≡ false = ground arith in
    rw e (
      pad_string-store f k (update m p 0) (p + 1) (size + 1) (omega arith) (omega arith)
        (omega arith)
      ∙ ap (λ n. (store (update m p 0) (p + 1) (replicate k 0), n)) (omega arith))

padding-lt : (n : ℕ) → padding n < 4
unfolding padding
padding-lt n = omega arith

module _ (s : Bytes) (m : Mem) (p : ℕ) where
  abbrev copied : Mem
  copied = store m (p + 2) s

  copy_then_pad :
      pad_string 3 copied (p + 2 + length s) (p + 2 + length s - p)
      ≡ (store m (p + 2) (padded s), 2 + (length s + padding (length s)))
  copy_then_pad =
      let n = length s in
      let e : p + 2 + n - p ≡ 2 + n = omega arith in
      rw e (
        pad_string-store 3 (padding n) copied (p + 2 + n) (2 + n) (omega (arith, padding_aligned n))
          (omega (arith, padding-lt n)) (omega arith)
        ∙ ap₂ (λ k z. (k, z)) (sym (store-append m (p + 2) s (replicate (padding n) 0)))
            (omega arith))

-- The length goes in front of characters that are stored already.
store_behind :
    (m : Mem) (p n : ℕ) (bs : Bytes)
    → store (store m (p + 2) bs) p (word n) ≡ store m p (word n ++ bs)
store_behind m p n bs =
    let e = length-word n in
    store_comm m p (p + 2) (word n) bs (omega (arith, e))
    ∙ ap (λ q. store (store m p (word n)) q bs) (omega (arith, e))
    ∙ sym (store-append m p (word n) bs)

run_string :
    (s : Option Bytes) (m : Mem) (p : ℕ)
    → write_string s m p ≡ (store m p (string s), length (string s))
unfolding write_string string
run_string none m p = (write_dword-Writes 0).run m p
run_string (some s) m p =
    let n = length s + padding (length s) in
    let e : 2 + n - 2 ≡ n = omega arith in
    rw (copy_string-store m (p + 2) s, copy_then_pad s m p, e)
      (ap₂ (λ k z. (k, z)) (store_behind m p n (padded s)) (omega (arith, length-string-some s)))

-- `write_string` stores exactly the encoded string: the length, the characters and the padding to
-- a multiple of four, and returns how many bytes they are; a null pointer is four null bytes.
pub write_string-Writes : (s : Option Bytes) → Writes (write_string s) (string s)
write_string-Writes s = record { run = run_string s }
