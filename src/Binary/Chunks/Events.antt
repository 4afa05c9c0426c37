-- ===== src/Binary/Chunks/Events.antt =====
-- The packets of traced calls as a chain.
use sp_rtrace.Prelude.{
  ℕ, ◌+◌, ◌≤◌, List, [], ◌∷◌, ◌++◌, ◌≡◌, sym, ap₂, subst, ◌∙◌, Option, none, some, All, length,
  length-append, arith, append_assoc, append-nil,
}
use sp_rtrace.Proto.Memory.{Bytes}
use sp_rtrace.Proto.Types.{function_call, function_args, backtrace}
use sp_rtrace.Tracer.Call.{Farg}
use sp_rtrace.Tracer.Call.Encoded.{
  call_bytes, args_bytes, trace_bytes, args_packet_bytes, packets_bytes, Event, event_bytes,
  events_bytes,
}
use sp_rtrace.Tracer.Packet.Emits.{framed}
use sp_rtrace.Binary.Generic.{Parser}
use sp_rtrace.Binary.Loop.{buffer_size, read_chunks, finished}
use sp_rtrace.Binary.Calls.View.{view_of, IsLinked, shown}
use sp_rtrace.Binary.Calls.Arrive.{
  AreArgsOpt, IsEvent, with_call, with_args, with_trace, dispatch-call, dispatch-args,
  dispatch-trace,
}
use sp_rtrace.Binary.Calls.Sequence.{
  shown_all, hshake_kept, hshake_after, with_args_index, view_event,
}
use sp_rtrace.Binary.Chunks.{Takes, Chain, done, packet, reads, read_chunks-reads}

module _ (p : Parser) (e : Event) (new : 2 ≤ p.rd.hshake.vmajor) (h : IsEvent e) where
  abbrev call_packet : Bytes
  call_packet = framed function_call (call_bytes e.context e.time e.call)

  abbrev trace_packet : Bytes
  trace_packet = framed backtrace (trace_bytes e.frames)

  call-Takes :
      length call_packet ≤ buffer_size
      → Takes p function_call (call_bytes e.context e.time e.call) (with_call p e)
  call-Takes fits = record {
    new = new;
    small = omega arith;
    other = omega arith;
    fits = fits;
    run = λ rest. dispatch-call p e rest h;
  }

  args-Takes :
      (args : List Farg)
      → AreArgsOpt (some args)
      → length (framed function_args (args_bytes args)) ≤ buffer_size
      → Takes (with_call p e) function_args (args_bytes args) (with_args p e (some args))
  args-Takes args k fits = record {
    new = new;
    small = omega arith;
    other = omega arith;
    fits = fits;
    run = λ rest. dispatch-args p e args rest k;
  }

  trace-Takes :
      length trace_packet ≤ buffer_size
      → Takes (with_args p e e.args) backtrace (trace_bytes e.frames) (with_trace p e)
  trace-Takes fits = record {
    new = rw (hshake_kept p e new e.args) new;
    small = omega arith;
    other = omega arith;
    fits = fits;
    run = λ rest. dispatch-trace p e e.args rest h;
  }

  chain_args :
      (args : Option (List Farg)) {ds : Bytes} {q : Parser}
      → AreArgsOpt args
      → length (args_packet_bytes args) ≤ buffer_size
      → Chain (with_args p e args) ds q
      → Chain (with_call p e) (args_packet_bytes args ++ ds) q
  unfolding args_packet_bytes
  chain_args none k fits c = c
  chain_args (some args) k fits c = packet (args-Takes args k fits) c

  length-event :
      length (event_bytes e)
      ≡ length call_packet + length (args_packet_bytes e.args) + length trace_packet
  unfolding packets_bytes
  length-event = omega (
    arith,
    length-append (call_packet ++ args_packet_bytes e.args) trace_packet,
    length-append call_packet (args_packet_bytes e.args),
  )

  pub chain_event :
      {ds : Bytes} {q : Parser}
      → length (event_bytes e) ≤ buffer_size
      → Chain (with_trace p e) ds q
      → Chain p (event_bytes e ++ ds) q
  unfolding packets_bytes
  chain_event {ds} {q} fits c =
      subst (λ b. Chain p b q)
        (sym (
          append_assoc (call_packet ++ args_packet_bytes e.args) trace_packet ds
          ∙ append_assoc call_packet (args_packet_bytes e.args) (trace_packet ++ ds)))
        (packet (call-Takes (omega (arith, length-event, fits))) (
          chain_args e.args h.arguments (omega (arith, length-event, fits))
            (packet (trace-Takes (omega (arith, length-event, fits))) c)))

-- Events whose packets fit half of the tracer's buffer, which is the size that the reader asks for.
abbrev pub Fits : Event → Type 0
Fits e = length (event_bytes e) ≤ buffer_size

pub chain_events :
    (p : Parser) (es : List Event)
    → 2 ≤ p.rd.hshake.vmajor
    → IsLinked p.rd
    → All IsEvent es
    → All Fits es
    → (q : Parser) × Chain p (events_bytes es) q
      × (view_of q.rd ≡ view_of p.rd ++ shown_all p.res_index p.call_index es)
unfolding events_bytes shown_all
chain_events p [] new linked h fits = (p, done, sym (append-nil (view_of p.rd)))
chain_events p (e ∷ es) new linked h fits =
    let (same, linked') = view_event p e new linked in
    let (index, table) = with_args_index p e new e.args in
    let (q, chain, seen) =
      chain_events (with_trace p e) es (rw (hshake_after p e new) new) linked' h.1 fits.1 in
    (
      q,
      chain_event p e new h.0 fits.0 chain,
      seen
          ∙ ap₂ (λ l r. l ++ r) same (ap₂ (λ t i. shown_all t i es) table index)
          ∙ append_assoc (view_of p.rd) (shown p.res_index p.call_index e ∷ []) _,
    )

-- For events whose values have the widths of their C types, with ids of resource types below 33
-- and texts that are strings, and whose packets fit 4096 bytes, a linked reader of protocol 2.0 or
-- newer finishes without overrunning its buffer, however their bytes are cut into the pieces that
-- `read` returns, and then shows each call once and in order behind the calls that it had, which
-- keep what they show.
pub read_chunks-events :
    (p : Parser) (es : List Event) (sizes : List ℕ)
    → 2 ≤ p.rd.hshake.vmajor
    → IsLinked p.rd
    → All IsEvent es
    → All Fits es
    → (q : Parser) × (read_chunks p [] (reads sizes (events_bytes es)) ≡ finished q)
      × (view_of q.rd ≡ view_of p.rd ++ shown_all p.res_index p.call_index es)
read_chunks-events p es sizes new linked h fits =
    let (q, chain, seen) = chain_events p es new linked h fits in
    (q, read_chunks-reads [] sizes (events_bytes es) chain, seen)
