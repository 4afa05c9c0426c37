-- ===== src/Binary/Chunks.antt =====
-- Packets that arrive in pieces: the outer loop of `read_binary_data` in
-- src/rtrace-postproc/parse_binary.c.
pub mod Prefix
pub mod Events
use sp_rtrace.Prelude.{
  ℕ, zero, suc, ◌+◌, ◌*◌, ◌%◌, ◌^◌, ◌-◌, ◌≤◌, ◌<◌, Bool, true, false, List, [], ◌∷◌, ◌++◌, ◌≡◌, ◌≢◌,
  refl, sym, ap, ◌∙◌, subst, Option, some, ltb, length, length-append, append_assoc, append-nil,
  arith, take, drop, take-append-drop, length-take, All, if◌then◌else◌, ◌⊎◌, inl, inr, Bool-cases,
  ltb-false, ltb→lt,
}
use sp_rtrace.Proto.Memory.{Bytes}
use sp_rtrace.Proto.Types.{hs_id}
use sp_rtrace.Tracer.Packet.Emits.{framed}
use sp_rtrace.Binary.Generic.{Parser, dispatch, read_generic_packet}
use sp_rtrace.Binary.Framed.{length-framed}
use sp_rtrace.Binary.Loop.{
  Progress, more, after_packet, parse_packets, parse_buffer, Ending, finished, overruns, refill,
  read_chunks, buffer_size,
}
use sp_rtrace.Binary.Loop.Steps.{parse_buffer_lem, parse_buffer-framed}
use sp_rtrace.Binary.Chunks.Prefix.{append-split, read_generic_packet-prefix}

-- A packet that the reader takes, whatever stands behind it, and that fits its buffer.
pub record Takes (p : Parser) (type : ℕ) (bs : Bytes) (q : Parser) : Type 0 where
  pub new : 2 ≤ p.rd.hshake.vmajor
  pub small : type < 2 ^ 32
  pub other : type % 256 ≢ hs_id
  pub fits : length (framed type bs) ≤ buffer_size
  pub run : (rest : Bytes) → dispatch type p (bs ++ rest) ≡ some (some q)

-- Packets one behind the other.
pub data Chain : Parser → Bytes → Parser → Type 0 where
  done : {p : Parser} → Chain p [] p
  packet :
      {p q r : Parser} {type : ℕ} {bs ds : Bytes}
      → Takes p type bs q
      → Chain q ds r
      → Chain p (framed type bs ++ ds) r

parse_nothing : (p : Parser) → parse_buffer p [] ≡ more p []
unfolding parse_buffer parse_packets after_packet read_generic_packet
parse_nothing p = refl

parse_packet :
    {p q : Parser} {type : ℕ} {bs : Bytes} (rest : Bytes)
    → Takes p type bs q
    → parse_buffer p (framed type bs ++ rest) ≡ parse_buffer q rest
parse_packet {p} {q} {type} {bs} rest h =
    let l = h.fits in
    parse_buffer-framed p q type bs rest h.new h.small h.other
      (omega (arith, length-framed type bs, l)) (h.run rest)

-- A whole sequence of packets is taken.
pub parse_buffer-Chain :
    {p q : Parser} {bytes : Bytes} → Chain p bytes q → parse_buffer p bytes ≡ more q []
parse_buffer-Chain (done {p}) = parse_nothing p
parse_buffer-Chain (packet {ds} h c) = parse_packet ds h ∙ parse_buffer-Chain c

parse_prefix :
    {p q : Parser} {type : ℕ} {bs : Bytes} (d x : Bytes)
    → Takes p type bs q
    → framed type bs ≡ d ++ x
    → length d < length (framed type bs)
    → parse_buffer p d ≡ more p d
unfolding after_packet
parse_prefix {p} {type} {bs} d x h e short =
    let l = h.fits in
    parse_buffer_lem p d
    ∙ rw (
        read_generic_packet-prefix p type bs d x h.new h.small h.other
          (omega (arith, length-framed type bs, l)) e short)

-- What the inner loop leaves of a sequence of packets that is cut anywhere: less than a packet.
pub record Cut (p : Parser) (d e : Bytes) (q : Parser) : Type 0 where
  pub parser : Parser
  pub left : Bytes
  pub parsed : parse_buffer p d ≡ more parser left
  pub bounded : length left ≤ buffer_size
  pub chain : Chain parser (left ++ e) q

nil_left : (d e : Bytes) → d ++ e ≡ [] → (d ≡ []) × (e ≡ [])
nil_left [] e h = (refl, h)
nil_left (x ∷ d) e h = cc

pub parse_buffer-Cut :
    {p q : Parser} {bytes : Bytes} (d e : Bytes) → Chain p bytes q → d ++ e ≡ bytes → Cut p d e q
parse_buffer-Cut d e (done {p}) h =
    let (l, r) = nil_left d e h in
    record {
      parser = p;
      left = [];
      parsed = ap (parse_buffer p) l ∙ parse_nothing p;
      bounded = omega arith;
      chain = subst (λ b. Chain p b p) (sym r) done;
    }
parse_buffer-Cut d e (packet {p} {q} {r} {type} {bs} {ds} t c) h =
    elim (Bool-cases (ltb (length d) (length (framed type bs)))) [
      | inl short ↦
          (let l : length d < length (framed type bs) = ltb→lt _ _ short in
            let fits = t.fits in
            let (x, whole, behind) = append-split d e (framed type bs) ds h (omega (arith, l)) in
            record {
              parser = p;
              left = d;
              parsed = parse_prefix d x t whole l;
              bounded = omega (arith, l, fits);
              chain = subst (λ b. Chain p b r) (sym h) (packet t c);
            })
      | inr long ↦
          (let (x, whole, behind) =
              append-split (framed type bs) ds d e (sym h) (ltb-false _ _ long) in
            let rest = parse_buffer-Cut x e c (sym behind) in
            record {
              parser = rest.parser;
              left = rest.left;
              parsed = ap (parse_buffer p) whole ∙ parse_packet x t ∙ rest.parsed;
              bounded = rest.bounded;
              chain = rest.chain;
            })
    ]

-- What the calls of `read` return: as many bytes as asked, one at least, and then what is left.
unfoldable pub reads : List ℕ → Bytes → List Bytes
reads sizes [] = []
reads [] (b ∷ d) = (b ∷ d) ∷ []
reads (n ∷ sizes) (b ∷ d) = (b ∷ take n d) ∷ reads sizes (drop n d)

read_chunks-refill :
    {p q : Parser} {d e : Bytes} (b : ℕ) (c : Bytes) (cs : List Bytes) (h : Cut p d e q)
    → read_chunks p d ((b ∷ c) ∷ cs) ≡ read_chunks h.parser (h.left ++ b ∷ c) cs
unfolding read_chunks refill overruns
read_chunks-refill b c cs h =
    let l = h.bounded in
    let fits : ltb (buffer_size * 2) (length h.left + (buffer_size - 1)) ≡ false = ground arith in
    rw (h.parsed, fits)

read_chunks-Chain : {p q : Parser} (d : Bytes) → Chain p d q → read_chunks p d [] ≡ finished q
unfolding read_chunks refill overruns
read_chunks-Chain d c = rw (parse_buffer-Chain c)

-- Let the bytes in the buffer and those still to come be packets that fit 4096 bytes and that the
-- reader takes one after the other. However the bytes to come are cut into pieces, the outer loop
-- ends without overrunning the buffer, and the trace data is what the packets make of it one by
-- one.
pub read_chunks-reads :
    {p q : Parser} (d : Bytes) (sizes : List ℕ) (e : Bytes)
    → Chain p (d ++ e) q
    → read_chunks p d (reads sizes e) ≡ finished q
unfolding reads
read_chunks-reads {p} {q} d sizes [] c =
    read_chunks-Chain d (subst (λ b. Chain p b q) (append-nil d) c)
read_chunks-reads {p} {q} d [] (b ∷ e) c =
    let h = parse_buffer-Cut d (b ∷ e) c refl in
    read_chunks-refill b e [] h ∙ read_chunks-Chain (h.left ++ b ∷ e) h.chain
read_chunks-reads {p} {q} d (n ∷ sizes) (b ∷ e) c =
    let h = parse_buffer-Cut d (b ∷ e) c refl in
    let joined : (h.left ++ b ∷ take n e) ++ drop n e ≡ h.left ++ b ∷ e =
      append_assoc h.left (b ∷ take n e) (drop n e)
      ∙ ap (λ l. h.left ++ b ∷ l) (take-append-drop n e) in
    read_chunks-refill b (take n e) (reads sizes (drop n e)) h
    ∙ read_chunks-reads {p = h.parser} (h.left ++ b ∷ take n e) sizes (drop n e)
        (subst (λ l. Chain h.parser l q) (sym joined) h.chain)
