-- ===== src/Rtrace/Listener/Packet.antt =====
-- `process_packet` on packets that are framed by type and length, whole or not.
use sp_rtrace.Prelude.{
  ℕ, ◌+◌, ◌%◌, ◌^◌, ◌≤◌, ◌<◌, true, false, [], ◌∷◌, ◌++◌, ◌≡◌, refl, ap, ◌∙◌, none, some, ltb,
  length, length-append, append_assoc, arith, inl, inr, Bool-cases, ltb-false, ltb→lt,
}
use sp_rtrace.Proto.Memory.{Bytes}
use sp_rtrace.Proto.Encode.{dword, length-dword}
use sp_rtrace.Proto.Read.{read_dword, read_word, read_byte}
use sp_rtrace.Proto.RoundTrip.{read_dword-dword}
use sp_rtrace.Tracer.Packet.Emits.{framed}
use sp_rtrace.Binary.Framed.{length-framed}
use sp_rtrace.Binary.Chunks.Prefix.{append-split}
use sp_rtrace.Rtrace.Listener.{
  Listener, System, refused, process_type, read_type_len, process_packet, buffer_size,
}

pub read_type_len-dword :
    (type n : ℕ) (rest : Bytes)
    → type < 2 ^ 32
    → n < 2 ^ 32
    → read_type_len (dword type ++ (dword n ++ rest)) ≡ some ((type, n), rest)
read_type_len-dword type n rest small fits =
    let a : type % 2 ^ 32 ≡ type = omega arith in
    let b : n % 2 ^ 32 ≡ n = omega arith in
    rw (read_dword-dword type, read_dword-dword n, a, b) refl

module _ (out : System) (s : Listener) (type : ℕ) (small : type < 2 ^ 32) where
  pub process_packet-framed :
      (bs rest : Bytes)
      → length (framed type bs) ≤ buffer_size
      → process_packet out (framed type bs ++ rest) s
        ≡ process_type out type (length (framed type bs)) (framed type bs ++ rest) (bs ++ rest) s
  unfolding process_packet
  process_packet-framed bs rest fits =
      let n = length bs in
      let l : length (framed type bs) ≡ 8 + n = length-framed type bs in
      let e : (n + 8) % 2 ^ 32 ≡ length (framed type bs) = omega (arith, l, fits) in
      let whole : ltb (length (framed type bs ++ rest)) (length (framed type bs)) ≡ false =
        ground (arith, length-append (framed type bs) rest) in
      let split : framed type bs ++ rest ≡ dword type ++ (dword n ++ (bs ++ rest)) =
        append_assoc (dword type) (dword n ++ bs) rest
        ∙ ap (λ l. dword type ++ l) (append_assoc (dword n) bs rest) in
      let header : read_type_len (framed type bs ++ rest) ≡ some ((type, n), bs ++ rest) =
        ap read_type_len split
        ∙ read_type_len-dword type n (bs ++ rest) small (omega (arith, l, fits)) in
      rw (header, e, whole) refl

  cut_header :
      (n : ℕ) (v : Bytes)
      → n < 2 ^ 31
      → length v < n
      → process_packet out (dword type ++ (dword n ++ v)) s ≡ refused s
  unfolding process_packet
  cut_header n v fits short =
      let e : (n + 8) % 2 ^ 32 ≡ n + 8 = omega arith in
      let l : length (dword type ++ (dword n ++ v)) ≡ 8 + length v = omega (
        arith,
        length-append (dword type) (dword n ++ v),
        length-append (dword n) v,
        length-dword type,
        length-dword n,
      ) in
      let less : ltb (length (dword type ++ (dword n ++ v))) (n + 8) ≡ true = ground (arith, l) in
      rw (read_type_len-dword type n v small (omega (arith, fits)), e, less) refl

pub no_header : (d : Bytes) → length d < 8 → read_type_len d ≡ none
unfolding read_dword read_word read_byte
no_header [] h = refl
no_header (a ∷ []) h = refl
no_header (a ∷ b ∷ []) h = refl
no_header (a ∷ b ∷ c ∷ []) h = refl
no_header (a ∷ b ∷ c ∷ e ∷ []) h = refl
no_header (a ∷ b ∷ c ∷ e ∷ f ∷ []) h = refl
no_header (a ∷ b ∷ c ∷ e ∷ f ∷ g ∷ []) h = refl
no_header (a ∷ b ∷ c ∷ e ∷ f ∷ g ∷ i ∷ []) h = refl
no_header (a ∷ b ∷ c ∷ e ∷ f ∷ g ∷ i ∷ j ∷ d) h = absurd (omega (arith, h))

few_bytes :
    (out : System) (s : Listener) (d : Bytes) → length d < 8 → process_packet out d s ≡ refused s
unfolding process_packet
few_bytes out s d h = rw (no_header d h) refl

-- The first part of a packet waits for the rest.
pub process_packet-prefix :
    (out : System) (s : Listener) (type : ℕ) (bs d x : Bytes)
    → type < 2 ^ 32
    → length (framed type bs) ≤ buffer_size
    → framed type bs ≡ d ++ x
    → length d < length (framed type bs)
    → process_packet out d s ≡ refused s
process_packet-prefix out s type bs d x small fits e short = elim (Bool-cases (ltb (length d) 8)) [
  | inl few ↦ few_bytes out s d (ltb→lt _ _ few)
  | inr enough ↦
      (let header = dword type ++ dword (length bs) in
        let eight : length header ≡ 8 = omega (
          arith,
          length-append (dword type) (dword (length bs)),
          length-dword type,
          length-dword (length bs),
        ) in
        let (v, front, back) =
          append-split header bs d x (append_assoc (dword type) (dword (length bs)) bs ∙ e)
            (omega (arith, eight, ltb-false _ _ enough)) in
        ap (λ l. process_packet out l s) (front ∙ append_assoc (dword type) (dword (length bs)) v)
        ∙ cut_header out s type small (length bs) v (omega (arith, fits, length-framed type bs)) (
            omega (
              arith,
              short,
              eight,
              length-framed type bs,
              ap length front,
              length-append header v,
            )))
]
