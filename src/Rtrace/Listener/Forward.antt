-- ===== src/Rtrace/Listener/Forward.antt =====
-- Packets that the listener passes on as they are.
use sp_rtrace.Prelude.{
  ℕ, suc, ◌+◌, ◌^◌, ◌≤◌, ◌<◌, Bool, true, false, List, [], ◌∷◌, ◌++◌, ◌≡◌, refl, sym, ap, subst,
  ◌∙◌, ◌==◌, ◌||◌, not, length, append_assoc, append-nil, arith, All,
}
use sp_rtrace.Proto.Memory.{Bytes}
use sp_rtrace.Proto.Encode.{dword}
use sp_rtrace.Proto.Types.{output_settings, process_info, new_library, attachment}
use sp_rtrace.Tracer.Packet.Emits.{framed, Framed, packets}
use sp_rtrace.Rtrace.Listener.{Listener, System, write_data, passed, process_type, buffer_size}
use sp_rtrace.Rtrace.Listener.Buffered.{
  stream, IsOpen, with_output, Wrote, write_data-Wrote, forward-Wrote, flush_data-all,
}
use sp_rtrace.Rtrace.Listener.Loop.{process_packets, finish, returns_0}
use sp_rtrace.Rtrace.Listener.Passing.{
  Passes, Passing, done, packet, arrivals, process_packets-arrivals,
}

-- A type that `process_packet` knows nothing about.
unfoldable pub is_plain : ℕ → Bool
is_plain type =
    not
      (type == output_settings || type == process_info || type == new_library || type == attachment)

-- A packet of another type that fits the room of one `read`.
pub record IsPlain (p : Framed) : Type 0 where
  pub plain : is_plain p.0 ≡ true
  pub small : p.0 < 2 ^ 32
  pub fits : length (framed p.0 p.1) ≤ buffer_size

module _ (out : System) (ok : out.answer ≡ true) where
  pub process_type-plain :
      (s : Listener) (type : ℕ) (bs rest : Bytes)
      → is_plain type ≡ true
      → (w : Wrote s (framed type bs) (write_data true (framed type bs) s))
      → process_type out type (length (framed type bs)) (framed type bs ++ rest) (bs ++ rest) s
        ≡ passed (framed type bs) rest (with_output w.written w.buffer s)
  unfolding process_type is_plain
  process_type-plain s type bs rest plain w =
      let a : (type == output_settings) ≡ false = ground (arith, plain) in
      let b : (type == process_info) ≡ false = ground (arith, plain) in
      let c : (type == new_library) ≡ false = ground (arith, plain) in
      let d : (type == attachment) ≡ false = ground (arith, plain) in
      rw (a, b, c, d) (forward-Wrote out s (framed type bs) rest ok w)

  pub plain-Passes :
      (s : Listener) (type : ℕ) (bs : Bytes)
      → IsPlain (type, bs)
      → (w : Wrote s (framed type bs) (write_data true (framed type bs) s))
      → Passes out s type bs (with_output w.written w.buffer s)
  unfolding dword
  plain-Passes s type bs h w = record {
    small = h.small;
    fits = h.fits;
    first = _;
    left = _;
    run = λ rest. process_type-plain s type bs rest h.plain w;
  }

-- What the output has nothing to do with.
pub record Kept (s t : Listener) : Type 0 where
  pub mmaps : t.s_mmaps ≡ s.s_mmaps
  pub pid : t.pid ≡ s.pid

-- All packets are written or buffered behind what was.
pub packets-Passing :
    (outs : ℕ → System) (ps : List Framed) (n : ℕ) (s : Listener)
    → ((i : ℕ) → (outs i).answer ≡ true)
    → IsOpen s
    → All IsPlain ps
    → (t : Listener) × Passing outs n s (packets ps) (n + length ps) t
      × (stream t ≡ stream s ++ packets ps)
      × IsOpen t
      × Kept s t
unfolding packets
packets-Passing outs [] n s ok ready h = (
  s,
  subst (λ m. Passing outs n s [] m s) (omega arith) done,
  sym (append-nil (stream s)),
  ready,
  record { mmaps = refl; pid = refl },
)
packets-Passing outs ((type, bs) ∷ ps) n s ok ready h =
    let w = write_data-Wrote s (framed type bs) ready h.0.fits in
    let (t, rest, more, still, kept) =
      packets-Passing outs ps (suc n) (with_output w.written w.buffer s) ok w.still h.1 in
    (
      t,
      packet (plain-Passes (outs n) (ok n) s type bs h.0 w) (
          subst (λ m. Passing outs (suc n) (with_output w.written w.buffer s) (packets ps) m t)
            (omega arith) rest),
      more
          ∙ ap (λ l. l ++ packets ps) w.more
          ∙ append_assoc (stream s) (framed type bs) (packets ps),
      still,
      record { mmaps = kept.mmaps; pid = kept.pid },
    )

pub finish-all :
    (outs : ℕ → System) (m : ℕ) (s : Listener)
    → (outs m).answer ≡ true
    → IsOpen s
    → finish outs m s ≡ returns_0 (record s { written = stream s; output_buffer = [] })
finish-all outs m s ok ready = rw (ok, flush_data-all s ready) refl

-- With the output connected, the buffer less than half full, or empty where it is not used, and
-- every `write` successful, packets of types that the listener does not know, each small enough
-- for one `read`, are passed on unchanged, once and in order behind what was written or buffered,
-- however they are cut; nothing is left in the buffer.
pub process_packets-plain :
    (outs : ℕ → System) (s : Listener) (before : Bytes) (sizes : List ℕ) (ps : List Framed) (n : ℕ)
    → ((i : ℕ) → (outs i).answer ≡ true)
    → IsOpen s
    → All IsPlain ps
    → (t : Listener) × (process_packets outs n before [] (arrivals sizes (packets ps)) s
        ≡ returns_0 t)
      × (t.written ≡ s.written ++ s.output_buffer ++ packets ps)
      × (t.output_buffer ≡ [])
process_packets-plain outs s before sizes ps n ok ready h =
    let (t, passing, more, still, kept) = packets-Passing outs ps n s ok ready h in
    (
      _,
      process_packets-arrivals outs before [] sizes (packets ps) passing
          ∙ finish-all outs (n + length ps) t (ok (n + length ps)) still,
      more,
      refl,
    )
