-- ===== src/Rtrace/Listener/Buffered.antt =====
-- The output buffer of the listener.
use sp_rtrace.Prelude.{
  ◌+◌, ◌*◌, ◌≤◌, ◌<◌, Bool, true, false, List, [], ◌∷◌, ◌++◌, ◌≡◌, refl, sym, ap, ◌∙◌, ltb, leb,
  ◌==◌, length, length-append, append_assoc, append-nil, arith, if◌then◌else◌, ap₂, take, drop, inl,
  inr, Bool-cases,
}
use sp_rtrace.Proto.Memory.{Bytes}
use sp_rtrace.Rtrace.Listener.{
  Listener, System, Write, wrote, flush_data, write_data, passed, forward, forward_from, state_of,
  buffer_size,
}

-- All bytes that are written or buffered.
abbrev pub stream : Listener → Bytes
stream s = s.written ++ s.output_buffer

-- The output is connected, and the buffer is less than half full, or not used.
pub record IsOpen (s : Listener) : Type 0 where
  pub connected : 0 < s.fd_out
  pub below : length s.output_buffer < buffer_size
  pub direct : s.disable_packet_buffering ≡ true → s.output_buffer ≡ []

abbrev pub with_output : Bytes → Bytes → Listener → Listener
with_output written buffer s = record s { written = written; output_buffer = buffer }

-- Only the output has changed, by these bytes.
pub record Wrote (s : Listener) (bs : Bytes) (w : Write) : Type 0 where
  pub written : Bytes
  pub buffer : Bytes
  pub result : w ≡ wrote (with_output written buffer s)
  pub more : written ++ buffer ≡ stream s ++ bs
  pub still : IsOpen (with_output written buffer s)

flush_data-full :
    (s : Listener) (bs : Bytes)
    → 0 < s.fd_out
    → 0 < length bs
    → flush_data true (record s { output_buffer = bs })
      ≡ wrote (record s { written = s.written ++ bs; output_buffer = [] })
unfolding flush_data
flush_data-full s bs ready pos =
    let a : ltb 0 s.fd_out ≡ true = ground arith in
    let b : (length bs == 0) ≡ false = ground arith in rw (a, b) refl

module _ {A : Type 0} where
  third :
      (a b c : Bool) (x y z w : A)
      → a ≡ false
      → b ≡ false
      → c ≡ true
      → (if a then x else if b then y else if c then z else w) ≡ z
  third a b c x y z w h k l = rw (h, k, l) refl

  last :
      (a b c : Bool) (x y z w : A)
      → a ≡ false
      → b ≡ false
      → c ≡ false
      → (if a then x else if b then y else if c then z else w) ≡ w
  last a b c x y z w h k l = rw (h, k, l) refl

false_true : {A : Type 0} (b : Bool) → b ≡ false → b ≡ true → A
false_true b h k = absurd cc

pub write_data-Wrote :
    (s : Listener) (bs : Bytes)
    → IsOpen s
    → length bs ≤ buffer_size
    → Wrote s bs (write_data true bs s)
unfolding write_data
write_data-Wrote s bs ready fits = elim (Bool-cases s.disable_packet_buffering) [
  | inl direct ↦ record {
    written = s.written ++ bs;
    buffer = s.output_buffer;
    result = rw direct refl;
    more = rw (ready.direct direct, append-nil) (sym (ap (λ l. l ++ bs) (append-nil s.written)));
    still = record { connected = ready.connected; below = ready.below; direct = ready.direct };
  }
  | inr buffered ↦
      (let all = s.output_buffer ++ bs in
        let below = ready.below in
        let l : length all ≡ length s.output_buffer + length bs =
          length-append s.output_buffer bs in
        let room : ltb (buffer_size * 2) (length all) ≡ false = ground (arith, l, fits, below) in
        elim (Bool-cases (leb buffer_size (length all))) [
          | inl full ↦
              (let pos : 0 < length all = ground (arith, full) in
                record {
                  written = s.written ++ all;
                  buffer = [];
                  result =
                      third _ _ _ _ _ _ _ buffered room full
                      ∙ flush_data-full s all ready.connected pos;
                  more =
                      append-nil (s.written ++ all)
                      ∙ sym (append_assoc s.written s.output_buffer bs);
                  still = record {
                    connected = ready.connected;
                    below = omega arith;
                    direct = λ e. refl;
                  };
                })
          | inr few ↦
              (let less : length all < buffer_size = ground (arith, few) in
                record {
                  written = s.written;
                  buffer = all;
                  result = last _ _ _ _ _ _ _ buffered room few;
                  more = sym (append_assoc s.written s.output_buffer bs);
                  still = record {
                    connected = ready.connected;
                    below = less;
                    direct = λ e. false_true s.disable_packet_buffering buffered e;
                  };
                })
        ])
]

pub take-append : {A : Type 0} (xs ys : List A) → take (length xs) (xs ++ ys) ≡ xs
take-append [] ys = refl
take-append (x ∷ xs) ys = ap (λ l. x ∷ l) (take-append xs ys)

pub drop-append : {A : Type 0} (xs ys : List A) → drop (length xs) (xs ++ ys) ≡ ys
drop-append [] ys = refl
drop-append (x ∷ xs) ys = drop-append xs ys

-- A packet at the front of the buffer is passed on as it is.
pub forward-Wrote :
    (out : System) (s : Listener) (ps rest : Bytes)
    → out.answer ≡ true
    → (w : Wrote s ps (write_data true ps s))
    → forward out (length ps) (ps ++ rest) s ≡ passed ps rest (with_output w.written w.buffer s)
forward-Wrote out s ps rest ok w =
    let n = length ps in
    ap (λ l. forward_from n (ps ++ rest) (state_of (write_data out.answer l s)))
      (take-append ps rest)
    ∙ ap (λ b. forward_from n (ps ++ rest) (state_of (write_data b ps s))) ok
    ∙ ap (λ r. forward_from n (ps ++ rest) (state_of r)) w.result
    ∙ ap₂ (λ a b. passed a b (with_output w.written w.buffer s)) (take-append ps rest)
        (drop-append ps rest)

flush_bytes :
    (s : Listener) (bs : Bytes)
    → 0 < s.fd_out
    → flush_data true (record s { output_buffer = bs })
      ≡ wrote (record s { written = s.written ++ bs; output_buffer = [] })
unfolding flush_data
flush_bytes s [] ready =
    let a : ltb 0 s.fd_out ≡ true = ground arith in
    rw a
      (ap (λ w. wrote (record s { written = w; output_buffer = [] })) (sym (append-nil s.written)))
flush_bytes s (b ∷ bs) ready = flush_data-full s (b ∷ bs) ready (omega arith)

-- At the end everything is written.
pub flush_data-all :
    (s : Listener)
    → IsOpen s
    → flush_data true s ≡ wrote (record s { written = stream s; output_buffer = [] })
flush_data-all s ready = flush_bytes s s.output_buffer ready.connected
