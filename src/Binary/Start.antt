-- ===== src/Binary/Start.antt =====
-- The start of `read_binary_data` on the handshake that the tracing module writes.
use sp_rtrace.Prelude.{
  ℕ, suc, ◌+◌, ◌-◌, ◌%◌, ◌<◌, false, List, [], ◌∷◌, ◌++◌, ◌≡◌, refl, ap, ap₂, ◌∙◌, some, leb, ◌==◌,
  length, length-append, append_assoc, arith, take, drop, if◌then◌else◌,
}
use sp_rtrace.Proto.Memory.{Bytes, slice}
use sp_rtrace.Proto.Encode.{IsCString}
use sp_rtrace.Proto.Types.{hs_id}
use sp_rtrace.Proto.Read.{read_byte, c_string}
use sp_rtrace.Proto.RoundTrip.{read_chunk-append}
use sp_rtrace.Tracer.Pipe.{Pipe}
use sp_rtrace.Tracer.Handshake.{align_size}
use sp_rtrace.Tracer.Handshake.Stored.{
  handshake_fields, handshake_size, handshake_bytes, length-handshake_bytes,
}
use sp_rtrace.Binary.Data.{Hshake}
use sp_rtrace.Binary.Packets.{read_handshake}
use sp_rtrace.Binary.Loop.{Ending, refused, read_binary_data, read_chunks, initial, compatible}
use sp_rtrace.Binary.Chunks.{reads}

abbrev pub hshake_of : ℕ → ℕ → Bytes → Hshake
hshake_of major minor arch = record {
  vmajor = major;
  vminor = minor;
  arch = arch;
  endianness = 0;
  pointer_size = 8;
}

c_string_self : (s : Bytes) → IsCString s → c_string s ≡ s
unfolding c_string
c_string_self [] h = refl
c_string_self (c ∷ s) h = ground (arith, c_string_self s h.1)

pub read_handshake-handshake_fields :
    (major minor : ℕ) (arch rest : Bytes)
    → major < 256
    → minor < 256
    → length arch < 256
    → IsCString arch
    → read_handshake (handshake_fields major minor arch ++ rest)
      ≡ some (hshake_of major minor arch, rest)
unfolding read_handshake handshake_fields read_byte
read_handshake-handshake_fields major minor arch rest a b c h =
    let a' : major % 256 ≡ major = omega (arith, a) in
    let b' : minor % 256 ≡ minor = omega (arith, b) in
    let c' : length arch % 256 ≡ length arch = omega (arith, c) in
    rw (
      a',
      b',
      c',
      append_assoc arch (0 ∷ 8 ∷ []) rest,
      read_chunk-append arch (0 ∷ 8 ∷ rest),
      c_string_self arch h,
    )

drop-append : (xs ys : Bytes) → drop (length xs) (xs ++ ys) ≡ ys
drop-append [] ys = refl
drop-append (x ∷ xs) ys = drop-append xs ys

-- The first two bytes taken off.
abbrev handshake_rest : Pipe → ℕ → ℕ → Bytes → Bytes
handshake_rest s major minor arch = drop 2 (handshake_bytes s major minor arch)

read_binary_data-rest :
    (s : Pipe) (major minor : ℕ) (arch first : Bytes) (cs : List Bytes)
    → major < 256
    → minor < 256
    → length arch < 250
    → IsCString arch
    → read_binary_data
        ((handshake_size arch - 2) % 256 ∷ (handshake_rest s major minor arch ++ first))
        cs
      ≡ read_chunks (initial (hshake_of major minor arch)) first cs
unfolding read_binary_data compatible align_size
read_binary_data-rest s major minor arch first cs a b c h =
    let rest = handshake_rest s major minor arch in
    let pad =
      slice s.memory (s.head + (7 + length arch)) (handshake_size arch - (7 + length arch)) in
    let l : length rest ≡ handshake_size arch - 2 =
      omega (arith, length-handshake_bytes s major minor arch) in
    let e : (handshake_size arch - 2) % 256 ≡ length rest = omega (arith, l, c) in
    let fits : leb (length (rest ++ first) + 1) (length rest) ≡ false =
      ground (arith, length-append rest first) in
    rw
      (
        e,
        fits,
        append_assoc (handshake_fields major minor arch) pad first,
        read_handshake-handshake_fields major minor arch (pad ++ first) a b (omega (arith, c)) h,
      )
      (ap (λ d. read_chunks (initial (hshake_of major minor arch)) d cs)
        (ap (λ k. drop k (rest ++ first)) e ∙ drop-append rest first))

-- The byte that tells the binary protocol from text, and the reader behind it: the first `read`
-- returns `n` bytes, the following ones what `sizes` says.
unfoldable pub read_process : ℕ → List ℕ → Bytes → Ending
read_process n sizes [] = refused
read_process n sizes (b ∷ d) =
    let go = read_binary_data (take n d) (reads sizes (drop n d)) in
    if b == hs_id then go else refused

pub take-split : (xs ys : Bytes) (k : ℕ) → take (length xs + k) (xs ++ ys) ≡ xs ++ take k ys
take-split [] ys k = ap (λ n. take n ys) (omega arith)
take-split (x ∷ xs) ys k =
    let e : length (x ∷ xs) + k ≡ suc (length xs + k) = omega arith in
    ap (λ n. take n (x ∷ (xs ++ ys))) e ∙ ap (λ l. x ∷ l) (take-split xs ys k)

pub drop-split : (xs ys : Bytes) (k : ℕ) → drop (length xs + k) (xs ++ ys) ≡ drop k ys
drop-split [] ys k = ap (λ n. drop n ys) (omega arith)
drop-split (x ∷ xs) ys k =
    let e : length (x ∷ xs) + k ≡ suc (length xs + k) = omega arith in
    ap (λ n. drop n (x ∷ (xs ++ ys))) e ∙ drop-split xs ys k

-- For versions below 256 and an architecture that is a string of less than 250 characters, a first
-- `read` that covers the handshake leaves the reader with exactly its versions, architecture, byte
-- order and pointer size, whatever the padding, and with the bytes behind it.
pub read_process-handshake :
    (s : Pipe) (major minor : ℕ) (arch rest : Bytes) (k : ℕ) (sizes : List ℕ)
    → major < 256
    → minor < 256
    → length arch < 250
    → IsCString arch
    → read_process (handshake_size arch - 1 + k) sizes (handshake_bytes s major minor arch ++ rest)
      ≡ read_chunks (initial (hshake_of major minor arch)) (take k rest) (reads sizes (drop k rest))
unfolding read_process align_size
read_process-handshake s major minor arch rest k sizes a b c h =
    let front = drop 1 (handshake_bytes s major minor arch) in
    let e : handshake_size arch - 1 + k ≡ length front + k =
      omega (arith, length-handshake_bytes s major minor arch) in
    ap₂ (λ d l. read_binary_data d (reads sizes l))
      (ap (λ n. take n (front ++ rest)) e ∙ take-split front rest k)
      (ap (λ n. drop n (front ++ rest)) e ∙ drop-split front rest k)
    ∙ read_binary_data-rest s major minor arch (take k rest) (reads sizes (drop k rest)) a b c h
