-- ===== src/Binary/Calls/Sequence.antt =====
-- The reader on the packets of one call, and of a list of calls.
use sp_rtrace.Prelude.{
  ℕ, ◌+◌, ◌≤◌, List, [], ◌∷◌, ◌++◌, ◌≡◌, refl, sym, ap, ap₂, subst, length-map, ◌∙◌, Option, none,
  some, map, All, All-append, arith, append_assoc, append-nil,
}
use mathlib.Core.List.{map-append}
use sp_rtrace.Proto.Memory.{Bytes}
use sp_rtrace.Proto.Types.{function_call, function_args, backtrace}
use sp_rtrace.Tracer.Call.{Farg}
use sp_rtrace.Tracer.Call.Encoded.{
  call_bytes, args_bytes, trace_bytes, args_packet_bytes, packets_bytes, Event, event_bytes,
  events_bytes,
}
use sp_rtrace.Tracer.Packet.Emits.{framed}
use sp_rtrace.Binary.Data
use sp_rtrace.Binary.Data.{Rd, modify, set_ftrace}
use sp_rtrace.Binary.Generic.{Parser}
use sp_rtrace.Binary.Loop.{more, parse_buffer, parse_packets, after_packet}
use sp_rtrace.Binary.Generic.{read_generic_packet}
use sp_rtrace.Binary.Loop.Steps.{parse_buffer-framed}
use sp_rtrace.Binary.Traces.{modify-concat, frames_of, InTable, get_elem?-some-lt}
use sp_rtrace.Binary.Calls.View.{
  CallView, view_call, view_of, IsLinked, args_of, shown, Keeps, view-Keeps,
}
use sp_rtrace.Binary.Calls.Store.{HasTrace, set_ftrace-HasTrace}
use sp_rtrace.Binary.Calls.Arrive.{
  AreArgsOpt, IsEvent, called, with_call, set_args, with_args, with_trace, dispatch-call,
  dispatch-args, dispatch-trace,
}

module _ (p : Parser) (e : Event) (new : 2 ≤ p.rd.hshake.vmajor) where
  parse_args :
      (args : Option (List Farg)) (rest : Bytes)
      → AreArgsOpt args
      → parse_buffer (with_call p e) (args_packet_bytes args ++ rest)
        ≡ parse_buffer (with_args p e args) rest
  unfolding args_packet_bytes
  parse_args none rest h = refl
  parse_args (some args) rest h =
      parse_buffer-framed (with_call p e) (with_args p e (some args)) function_args
        (args_bytes args) rest new (omega arith) (omega arith) h.2 (dispatch-args p e args rest h)

  pub hshake_kept : (args : Option (List Farg)) → (with_args p e args).rd.hshake ≡ p.rd.hshake
  hshake_kept none = refl
  hshake_kept (some args) = refl

  -- The packets of a call are taken off the buffer, whatever stands behind them.
  pub parse_event :
      (rest : Bytes)
      → IsEvent e
      → parse_buffer p (event_bytes e ++ rest) ≡ parse_buffer (with_trace p e) rest
  unfolding packets_bytes
  parse_event rest h =
      let call = framed function_call (call_bytes e.context e.time e.call) in
      let trace = framed backtrace (trace_bytes e.frames) in
      ap (parse_buffer p) (
        append_assoc (call ++ args_packet_bytes e.args) trace rest
        ∙ append_assoc call (args_packet_bytes e.args) (trace ++ rest))
      ∙ parse_buffer-framed p (with_call p e) function_call (call_bytes e.context e.time e.call)
          (args_packet_bytes e.args ++ (trace ++ rest)) new (omega arith) (omega arith) h.call_size
          (dispatch-call p e _ h)
      ∙ parse_args e.args (trace ++ rest) h.arguments
      ∙ parse_buffer-framed (with_args p e e.args) (with_trace p e) backtrace (trace_bytes e.frames)
          rest (rw (hshake_kept e.args) new) (omega arith) (omega arith) h.trace_size
          (dispatch-trace p e e.args rest h)

  abbrev complete : Option (List Farg) → Data.Fcall
  complete args = record (called p e) { args = args_of args }

  with_args_calls :
      (args : Option (List Farg)) → (with_args p e args).rd.calls ≡ p.rd.calls ++ complete args ∷ []
  with_args_calls none = refl
  with_args_calls (some args) = modify-concat (set_args p e args) p.rd.calls (called p e)

  with_args_ftraces : (args : Option (List Farg)) → (with_args p e args).rd.ftraces ≡ p.rd.ftraces
  with_args_ftraces none = refl
  with_args_ftraces (some args) = refl

  pub with_args_index :
      (args : Option (List Farg))
      → ((with_args p e args).call_index ≡ p.call_index + 1)
        × ((with_args p e args).res_index ≡ p.res_index)
  with_args_index none = (refl, refl)
  with_args_index (some args) = (refl, refl)

  traced :
      HasTrace (with_args p e e.args).rd p.rd.calls (complete e.args) e.frames (with_trace p e).rd
  traced =
      set_ftrace-HasTrace (with_args p e e.args).rd p.rd.calls (complete e.args) e.frames
        (with_args_calls e.args)

  open traced use {position, calls, stored, keeps, hshake}

  kept_from : Keeps p.rd.ftraces (with_trace p e).rd.ftraces
  kept_from = rw (with_args_ftraces e.args) at keeps

  pub hshake_after : (with_trace p e).rd.hshake ≡ p.rd.hshake
  hshake_after = hshake ∙ hshake_kept e.args

  position_InTable : InTable (with_trace p e).rd.ftraces (some position)
  position_InTable =
      let ts = (with_trace p e).rd.ftraces in
      omega (
        arith,
        get_elem?-some-lt (frames_of ts) position stored,
        length-map ts (λ (t : Data.Ftrace). t.frames),
      )

  pub view_event :
      IsLinked p.rd
      → (view_of (with_trace p e).rd ≡ view_of p.rd ++ shown p.res_index p.call_index e ∷ [])
        × IsLinked (with_trace p e).rd
  view_event linked =
      let q = (with_trace p e).rd in
      let c = record (complete e.args) { trace = some position } in
      let (same, inside) = view-Keeps p.rd.ftraces q.ftraces p.rd.calls kept_from linked in
      (
        ap (map (view_call q.ftraces)) calls
            ∙ map-append (view_call q.ftraces) p.rd.calls (c ∷ [])
            ∙ ap₂ (λ l o. l ++ (complete e.args, o) ∷ []) same stored,
        subst (All (λ c. InTable q.ftraces c.trace)) (sym calls)
            (All-append _ p.rd.calls (c ∷ []) inside (position_InTable, tt)),
      )

-- What a report should show for them, numbered from `index` on.
unfoldable pub shown_all : (ℕ → Option ℕ) → ℕ → List Event → List CallView
shown_all res_index index [] = []
shown_all res_index index (e ∷ es) = shown res_index index e ∷ shown_all res_index (index + 1) es

parse_nothing : (p : Parser) → parse_buffer p [] ≡ more p []
unfolding parse_buffer parse_packets after_packet read_generic_packet
parse_nothing p = refl

-- For any events whose values have the widths of their C types, whose ids of resource types are
-- below 33, whose texts are strings of less than 65532 characters and whose packets have sizes
-- that are ints, a linked reader of protocol 2.0 or newer takes all bytes of their packets and
-- then shows each call once and in order, with its own fields, registered resource, arguments and
-- frames, behind the calls that it had, which keep what they show.
pub parse_events :
    (p : Parser) (es : List Event)
    → 2 ≤ p.rd.hshake.vmajor
    → IsLinked p.rd
    → All IsEvent es
    → (q : Parser) × (parse_buffer p (events_bytes es) ≡ more q [])
      × (view_of q.rd ≡ view_of p.rd ++ shown_all p.res_index p.call_index es)
unfolding events_bytes shown_all
parse_events p [] new linked h = (p, parse_nothing p, sym (append-nil (view_of p.rd)))
parse_events p (e ∷ es) new linked h =
    let (same, linked') = view_event p e new linked in
    let (index, table) = with_args_index p e new e.args in
    let (q, parsed, seen) =
      parse_events (with_trace p e) es (rw (hshake_after p e new) new) linked' h.1 in
    (
      q,
      parse_event p e new (events_bytes es) h.0 ∙ parsed,
      seen
          ∙ ap₂ (λ l r. l ++ r) same (ap₂ (λ t i. shown_all t i es) table index)
          ∙ append_assoc (view_of p.rd) (shown p.res_index p.call_index e ∷ []) _,
    )
