-- ===== src/Rtrace/Listener/Passing.antt =====
-- Packets that the listener takes one after the other, however they arrive.
use sp_rtrace.Prelude.{
  ℕ, zero, suc, ◌+◌, ◌*◌, ◌^◌, ◌≤◌, ◌<◌, Bool, false, List, [], ◌∷◌, ◌++◌, ◌≡◌, refl, sym, ap, ◌∙◌,
  subst, ltb, length, length-append, append_assoc, append-nil, arith, take, drop, take-append-drop,
  inl, inr, Bool-cases, ltb-false, ltb→lt,
}
use sp_rtrace.Proto.Memory.{Bytes}
use sp_rtrace.Tracer.Packet.Emits.{framed}
use sp_rtrace.Binary.Framed.{length-framed}
use sp_rtrace.Binary.Chunks.Prefix.{append-split}
use sp_rtrace.Rtrace.Listener.{Listener, System, passed, process_type, process_packet, buffer_size}
use sp_rtrace.Rtrace.Listener.Packet.{process_packet-framed, process_packet-prefix, no_header}
use sp_rtrace.Rtrace.Listener.Loop.{
  Answer, got, stops, after_process, take_packets, refill_buffer, process_packets, finish,
}

-- A packet that is taken, whatever stands behind it, and that fits the room of one `read`; `w` is
-- what it becomes in the buffer.
pub record Passes (out : System) (s : Listener) (type : ℕ) (bs : Bytes) (t : Listener)
    : Type 0 where
  pub small : type < 2 ^ 32
  pub fits : length (framed type bs) ≤ buffer_size
  pub first : ℕ
  pub left : Bytes
  pub run :
      (rest : Bytes)
      → process_type out type (length (framed type bs)) (framed type bs ++ rest) (bs ++ rest) s
        ≡ passed (first ∷ left) rest t

-- What the calls of `read` return: as many bytes as asked, one at least, and then what is left.
unfoldable pub arrivals : List ℕ → Bytes → List (Bool × Answer)
arrivals sizes [] = []
arrivals [] (b ∷ d) = (false, got (b ∷ d)) ∷ []
arrivals (n ∷ sizes) (b ∷ d) = (false, got (b ∷ take n d)) ∷ arrivals sizes (drop n d)

module _ (outs : ℕ → System) where
  -- Packets one behind the other, from the packet `n` on.
  pub data Passing : ℕ → Listener → Bytes → ℕ → Listener → Type 0 where
    done : {n : ℕ} {s : Listener} → Passing n s [] n s
    packet :
        {n m type : ℕ} {s t u : Listener} {bs ds : Bytes}
        → Passes (outs n) s type bs t
        → Passing (suc n) t ds m u
        → Passing n s (framed type bs ++ ds) m u

  pub Passing-append :
      {n m k : ℕ} {s t u : Listener} {xs ys : Bytes}
      → Passing n s xs m t
      → Passing m t ys k u
      → Passing n s (xs ++ ys) k u
  Passing-append done c = c
  Passing-append {n} {m} {k} {s} {t} {u} {xs} {ys} (packet {type} {bs} {ds} p b) c =
      subst (λ l. Passing n s l k u) (sym (append_assoc (framed type bs) ds ys))
        (packet p (Passing-append b c))

  take_none :
      (f n : ℕ) (before : Bytes) (s : Listener)
      → take_packets outs f n before [] s ≡ stops n before [] s
  unfolding take_packets after_process process_packet
  take_none zero n before s = refl
  take_none (suc f) n before s = rw (no_header [] (omega arith)) refl

  take_packet :
      {s t : Listener} {type : ℕ} {bs : Bytes} (f n : ℕ) (before rest : Bytes)
      (h : Passes (outs n) s type bs t)
      → take_packets outs (suc f) n before (framed type bs ++ rest) s
        ≡ take_packets outs f (suc n) (before ++ h.first ∷ h.left) rest t
  unfolding take_packets after_process
  take_packet {s} {t} {type} {bs} f n before rest h =
      rw (process_packet-framed (outs n) s type h.small bs rest h.fits, h.run rest) refl

  take_prefix :
      {s t : Listener} {type : ℕ} {bs : Bytes} (f n : ℕ) (before d x : Bytes)
      → Passes (outs n) s type bs t
      → framed type bs ≡ d ++ x
      → length d < length (framed type bs)
      → take_packets outs f n before d s ≡ stops n before d s
  unfolding take_packets after_process
  take_prefix zero n before d x h e short = refl
  take_prefix {s} {t} {type} {bs} (suc f) n before d x h e short =
      rw (process_packet-prefix (outs n) s type bs d x h.small h.fits e short) refl

  -- What the inner loop leaves of packets that are cut anywhere: less than a packet.
  pub record Cut (f n : ℕ) (before d e : Bytes) (s : Listener) (m : ℕ) (u : Listener) : Type 0 where
    pub position : ℕ
    pub behind : Bytes
    pub left : Bytes
    pub state : Listener
    pub taken : take_packets outs f n before d s ≡ stops position behind left state
    pub bounded : length left ≤ buffer_size
    pub passing : Passing position state (left ++ e) m u

  nil_left : (d e : Bytes) → d ++ e ≡ [] → (d ≡ []) × (e ≡ [])
  nil_left [] e h = (refl, h)
  nil_left (x ∷ d) e h = cc

  take_all :
      {n m : ℕ} {s u : Listener} {bytes : Bytes} (f : ℕ) (before : Bytes)
      → Passing n s bytes m u
      → length bytes < f
      → (after : Bytes) × (take_packets outs f n before bytes s ≡ stops m after [] u)
  take_all f before (done {n} {s}) enough = (before, take_none f n before s)
  take_all zero before (packet p c) enough = absurd (omega (arith, enough))
  take_all (suc f) before (packet {n} {m} {type} {s} {t} {u} {bs} {ds} p c) enough =
      let less : length ds < f =
        omega (arith, enough, length-append (framed type bs) ds, length-framed type bs) in
      let (after, rest) = take_all f (before ++ p.first ∷ p.left) c less in
      (after, take_packet f n before ds p ∙ rest)

  pub take_packets-Cut :
      {n m : ℕ} {s u : Listener} {bytes : Bytes} (f : ℕ) (before d e : Bytes)
      → Passing n s bytes m u
      → length d < f
      → d ++ e ≡ bytes
      → Cut f n before d e s m u
  take_packets-Cut f before d e (done {n} {s}) enough h =
      let (l, r) = nil_left d e h in
      record {
        position = n;
        behind = before;
        left = [];
        state = s;
        taken = ap (λ b. take_packets outs f n before b s) l ∙ take_none f n before s;
        bounded = omega arith;
        passing = subst (λ b. Passing n s b n s) (sym r) done;
      }
  take_packets-Cut zero before d e (packet p c) enough h = absurd (omega (arith, enough))
  take_packets-Cut (suc f) before d e (packet {n} {m} {type} {s} {t} {u} {bs} {ds} p c) enough h =
      elim (Bool-cases (ltb (length d) (length (framed type bs)))) [
        | inl short ↦
            (let l : length d < length (framed type bs) = ltb→lt _ _ short in
              let fits = p.fits in
              let (x, whole, behind) = append-split d e (framed type bs) ds h (omega (arith, l)) in
              record {
                position = n;
                behind = before;
                left = d;
                state = s;
                taken = take_prefix (suc f) n before d x p whole l;
                bounded = omega (arith, l, fits);
                passing = subst (λ b. Passing n s b m u) (sym h) (packet p c);
              })
        | inr long ↦
            (let (x, whole, behind) =
                append-split (framed type bs) ds d e (sym h) (ltb-false _ _ long) in
              let next = before ++ p.first ∷ p.left in
              let less : length x < f = omega (
                arith,
                enough,
                ap length whole,
                length-append (framed type bs) x,
                length-framed type bs,
              ) in
              let rest = take_packets-Cut f next x e c less (sym behind) in
              record {
                position = rest.position;
                behind = rest.behind;
                left = rest.left;
                state = rest.state;
                taken =
                    ap (λ b. take_packets outs (suc f) n before b s) whole
                    ∙ take_packet f n before x p
                    ∙ rest.taken;
                bounded = rest.bounded;
                passing = rest.passing;
              })
      ]

  process_packets-refill_buffer :
      {m n : ℕ} {u s : Listener} {before d e : Bytes} (b : ℕ) (c : Bytes)
      (reads : List (Bool × Answer)) (h : Cut (suc (length d)) n before d e s m u)
      → process_packets outs n before d ((false, got (b ∷ c)) ∷ reads) s
        ≡ process_packets outs h.position [] (h.left ++ b ∷ c) reads h.state
  unfolding process_packets refill_buffer
  process_packets-refill_buffer b c reads h =
      let l = h.bounded in
      let fits : ltb (buffer_size * 2) (length h.left + buffer_size) ≡ false = ground arith in
      rw (h.taken, fits) refl

  process_packets-end :
      {n m : ℕ} {s u : Listener} (before d : Bytes)
      → Passing n s d m u
      → process_packets outs n before d [] s ≡ finish outs m u
  unfolding process_packets refill_buffer
  process_packets-end before d c =
      let (after, taken) = take_all (suc (length d)) before c (omega arith) in rw taken refl

  pub process_packets-arrivals :
      {n m : ℕ} {s u : Listener} (before d : Bytes) (sizes : List ℕ) (e : Bytes)
      → Passing n s (d ++ e) m u
      → process_packets outs n before d (arrivals sizes e) s ≡ finish outs m u
  unfolding arrivals
  process_packets-arrivals {n} {m} {s} {u} before d sizes [] c =
      process_packets-end before d (subst (λ b. Passing n s b m u) (append-nil d) c)
  process_packets-arrivals {n} {m} {s} {u} before d [] (b ∷ e) c =
      let h = take_packets-Cut (suc (length d)) before d (b ∷ e) c (omega arith) refl in
      process_packets-refill_buffer b e [] h ∙ process_packets-end [] (h.left ++ b ∷ e) h.passing
  process_packets-arrivals {n} {m} {s} {u} before d (k ∷ sizes) (b ∷ e) c =
      let h = take_packets-Cut (suc (length d)) before d (b ∷ e) c (omega arith) refl in
      let joined : (h.left ++ b ∷ take k e) ++ drop k e ≡ h.left ++ b ∷ e =
        append_assoc h.left (b ∷ take k e) (drop k e)
        ∙ ap (λ l. h.left ++ b ∷ l) (take-append-drop k e) in
      process_packets-refill_buffer b (take k e) (arrivals sizes (drop k e)) h
      ∙ process_packets-arrivals {n = h.position} {s = h.state} [] (h.left ++ b ∷ take k e) sizes
          (drop k e) (subst (λ l. Passing h.position h.state l m u) (sym joined) h.passing)
