-- ===== src/Tracer/Handshake/Stored.antt =====
-- The bytes of the handshake in the buffer.
use sp_rtrace.Prelude.{
  ℕ, zero, suc, ◌+◌, ◌-◌, ◌%◌, ◌≤◌, Bool, true, false, [], ◌∷◌, ◌++◌, ◌≡◌, refl, sym, ap, ap₂, ◌∙◌,
  fun_ext, inr, some, length, length-append, arith,
}
use sp_rtrace.Proto.Memory.{
  Bytes, Mem, update, store, slice, store_outside, store-append, slice_congr,
}
use sp_rtrace.Proto.Types.{hs_id}
use sp_rtrace.Proto.Write.{write_byte, copy_string-store}
use sp_rtrace.Tracer.Pipe.{Pipe, lock, unlock}
use sp_rtrace.Tracer.Pipe.Stream.{finish, filled}
use sp_rtrace.Tracer.Packet.{Cursor, put, insert_at, send}
use sp_rtrace.Tracer.Packet.Emits.{after, reserve_then_insert}
use sp_rtrace.Tracer.Handshake.{
  align_size, endianness, pointer_size, handshake_body, write_handshake,
}

store-slice : (m : Mem) (p n : ℕ) → store m p (slice m p n) ≡ m
unfolding store slice
store-slice m p zero = refl
store-slice m p (suc n) =
    let same : update m p (m p) ≡ m = fun_ext λ a. ground arith in
    ap (λ k. store k (p + 1) (slice m (p + 1) n)) same ∙ store-slice m (p + 1) n

-- Storing what is there anyway behind a run.
store-keep :
    (m : Mem) (p : ℕ) (xs : Bytes) (n : ℕ)
    → store m p (xs ++ slice m (p + length xs) n) ≡ store m p xs
store-keep m p xs n =
    let q = p + length xs in
    let kept : slice m q n ≡ slice (store m p xs) q n =
      slice_congr m (store m p xs) q n (λ a l u. sym (store_outside m p xs a (inr l))) in
    store-append m p xs (slice m q n)
    ∙ ap (store (store m p xs) q) kept
    ∙ store-slice (store m p xs) q n

-- Behind the two bytes of identification and size.
unfoldable pub handshake_fields : ℕ → ℕ → Bytes → Bytes
handshake_fields major minor arch =
    (major % 256 ∷ minor % 256 ∷ length arch % 256 ∷ arch) ++ endianness ∷ pointer_size ∷ []

abbrev pub handshake_size : Bytes → ℕ
handshake_size arch = align_size (7 + length arch)

abbrev pub handshake_front : ℕ → ℕ → Bytes → Bytes
handshake_front major minor arch =
    hs_id ∷ (handshake_size arch - 2) % 256 ∷ handshake_fields major minor arch

pub length-handshake_front :
    (major minor : ℕ) (arch : Bytes) → length (handshake_front major minor arch) ≡ 7 + length arch
unfolding handshake_fields
length-handshake_front major minor arch =
    omega (arith, length-append arch (endianness ∷ pointer_size ∷ []))

pub align_size-le : (n : ℕ) → n ≤ align_size n
unfolding align_size
align_size-le n = ground arith

-- The length of the architecture in front of its characters, and two bytes behind them.
name_stored :
    (k : Mem) (q len : ℕ) (arch tail : Bytes)
    → store (store (store k (q + 1) arch) q (len ∷ [])) (q + 1 + length arch) tail
      ≡ store k q (len ∷ arch ++ tail)
name_stored k q len arch tail =
    let e : q + 1 + length arch ≡ q + length (len ∷ arch) = omega arith in
    ap₂ (λ n a. store n a tail) (reserve_then_insert k q (len ∷ []) arch) e
    ∙ sym (store-append k q (len ∷ arch) tail)

-- The size is put into its place last.
size_stored :
    (m : Mem) (p id size : ℕ) (rest : Bytes)
    → store (store (store m p (id ∷ [])) (p + 2) rest) (p + 1) (size ∷ [])
      ≡ store m p (id ∷ size ∷ rest)
unfolding store
size_stored m p id size rest =
    let h = store m p (id ∷ []) in
    let e : p + 2 ≡ p + 1 + 1 = omega arith in
    ap (λ a. store (store h a rest) (p + 1) (size ∷ [])) e
    ∙ reserve_then_insert h (p + 1) (size ∷ []) rest

-- Whatever the order of the stores, the fields stand one behind the other.
handshake_body-front :
    (major minor : ℕ) (arch : Bytes) (c : Cursor)
    → handshake_body major minor arch c ≡ record {
      memory = store c.memory c.ptr (handshake_front major minor arch);
      ptr = c.ptr + handshake_size arch;
    }
unfolding handshake_body write_byte put insert_at handshake_fields store
handshake_body-front major minor arch c =
    let m = c.memory in
    let p = c.ptr in
    let n = length arch in
    let a : p + 2 + 1 + 1 + 1 + n - (p + 2 + 1 + 1) - 1 ≡ n = omega arith in
    let b : p + 2 + 1 + 1 + 1 + n + 1 + 1 - p ≡ 7 + n = omega arith in
    rw (copy_string-store, a, b)
      (ap (λ k. record { memory = k; ptr = p + handshake_size arch })
        (ap (λ k. update k (p + 1) ((handshake_size arch - 2) % 256))
            (name_stored
              (update (update (update m p hs_id) (p + 2) (major % 256)) (p + 2 + 1) (minor % 256))
              (p + 2 + 1 + 1) (n % 256) arch (endianness ∷ pointer_size ∷ []))
          ∙ size_stored m p hs_id ((handshake_size arch - 2) % 256)
              (handshake_fields major minor arch)))

-- The padding as the buffer holds it.
abbrev pub handshake_bytes : Pipe → ℕ → ℕ → Bytes → Bytes
handshake_bytes s major minor arch =
    handshake_front major minor arch
    ++ slice s.memory (s.head + (7 + length arch)) (handshake_size arch - (7 + length arch))

length-slice : (m : Mem) (p n : ℕ) → length (slice m p n) ≡ n
unfolding slice
length-slice m p zero = refl
length-slice m p (suc n) = ap suc (length-slice m (p + 1) n)

pub length-handshake_bytes :
    (s : Pipe) (major minor : ℕ) (arch : Bytes)
    → length (handshake_bytes s major minor arch) ≡ handshake_size arch
length-handshake_bytes s major minor arch =
    let n = 7 + length arch in
    let rest = slice s.memory (s.head + n) (handshake_size arch - n) in
    omega (
      arith,
      length-append (handshake_front major minor arch) rest,
      length-handshake_front major minor arch,
      length-slice s.memory (s.head + n) (handshake_size arch - n),
      align_size-le n,
    )

handshake_body-after :
    (major minor : ℕ) (arch : Bytes) (s : Pipe)
    → handshake_body major minor arch (record { memory = s.memory; ptr = s.head })
      ≡ after (record { memory = s.memory; ptr = s.head }) (handshake_bytes s major minor arch)
handshake_body-after major minor arch s =
    let n = 7 + length arch in
    handshake_body-front major minor arch (record { memory = s.memory; ptr = s.head })
    ∙ ap₂ (λ m k. record { memory = m; ptr = s.head + k })
        (sym (
          ap
            (λ k. store s.memory s.head (
              handshake_front major minor arch
              ++ slice s.memory (s.head + k) (handshake_size arch - n)))
            (sym (length-handshake_front major minor arch))
          ∙ store-keep s.memory s.head (handshake_front major minor arch)
              (handshake_size arch - n)))
        (sym (length-handshake_bytes s major minor arch))

-- On an unlocked pipe the stores of `write_handshake` amount to one packet at the head of the
-- buffer: identification, size, versions, architecture, byte order and pointer size, and as
-- padding whatever the buffer held there; it is finished like any packet, and its aligned size is
-- returned.
pub write_handshake-finish :
    (s : Pipe) (major minor : ℕ) (arch : Bytes) (answer : Bool)
    → s.locked ≡ false
    → write_handshake major minor arch answer s
      ≡ some (
        finish (record s { locked = true }) (handshake_bytes s major minor arch) answer,
        handshake_size arch,
      )
unfolding write_handshake send lock
write_handshake-finish s major minor arch answer free =
    let size = length-handshake_bytes s major minor arch in
    let e : s.head + length (handshake_bytes s major minor arch) - s.head ≡ handshake_size arch =
      omega (arith, size) in
    rw (free, handshake_body-after major minor arch s, e)
      (ap
        (λ n. some (
          unlock s.head n answer
              (filled (record s { locked = true }) (handshake_bytes s major minor arch)),
          handshake_size arch,
        ))
        (sym size))
