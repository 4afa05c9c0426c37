-- ===== src/Tracer/Call/Sent.antt =====
-- What a traced call adds to the stream of bytes that goes to the other end of the pipe.
use sp_rtrace.Prelude.{
  ℕ, ◌≤◌, true, List, [], ◌∷◌, ◌++◌, ◌≡◌, refl, ap, sym, subst, ◌∙◌, Option, none, some, length,
  arith, append-nil, append_assoc,
}
use sp_rtrace.Proto.Memory.{Bytes}
use sp_rtrace.Tracer.Pipe.{Pipe, buffer_size}
use sp_rtrace.Tracer.Pipe.Stream.{
  stream, finish, stream-finish, IsReady, finish-IsReady, finish-enable,
}
use sp_rtrace.Tracer.Packet.{Cursor, send}
use sp_rtrace.Tracer.Packet.Emits.{Emits, send-finish}
use sp_rtrace.Tracer.Call.{
  Fcall, Farg, Options, Outside, choose_trace, timestamp, call_packets, write_function_call,
}
use sp_rtrace.Tracer.Call.Encoded.{
  Event, event_bytes, events_bytes, packets_bytes, call_packets-Emits,
}

-- `run` returns normally: the bytes are behind what the stream held, and their number is returned.
-- Packets that fit the lower half of the buffer leave it in bounds and unlocked.
pub record Sends (s : Pipe) (bs : Bytes) (run : Option (Pipe × ℕ)) : Type 0 where
  pub after : Pipe
  pub returns : run ≡ some (after, length bs)
  pub appended : stream after ≡ stream s ++ bs
  pub ready : length bs ≤ buffer_size → IsReady after
  pub enabled : after.enable ≡ s.enable

pub send-Sends :
    {body : Cursor → Cursor} {bs : Bytes} (s : Pipe)
    → Emits body bs
    → IsReady s
    → Sends s bs (send body true s)
unfolding stream
send-Sends {bs} s h ready = record {
  after = finish (record s { locked = true }) bs true;
  returns = send-finish s true h ready.unlocked;
  appended = stream-finish (record s { locked = true }) bs;
  ready = λ small. finish-IsReady (record s { locked = true }) bs true ready.below small;
  enabled = finish-enable (record s { locked = true }) bs;
}

write_function_call-send :
    (o : Options) (out : Outside) (call : Fcall) (trace : Option (List ℕ))
    (args : Option (List Farg)) (frames : List ℕ) (s : Pipe)
    → s.enable ≡ true
    → choose_trace o out call trace ≡ some frames
    → write_function_call o out call trace args true s
      ≡ send (call_packets out.call_context (timestamp o out) call args frames) true s
unfolding write_function_call
write_function_call-send o out call trace args frames s on chosen = ground arith

-- A traced call whose backtrace is chosen: its packets, and nothing else, are added to the stream.
pub write_function_call-Sends :
    (o : Options) (out : Outside) (call : Fcall) (trace : Option (List ℕ))
    (args : Option (List Farg)) (frames : List ℕ) (s : Pipe)
    → s.enable ≡ true
    → IsReady s
    → choose_trace o out call trace ≡ some frames
    → Sends s
        (packets_bytes out.call_context (timestamp o out) call args frames)
        (write_function_call o out call trace args true s)
write_function_call-Sends o out call trace args frames s on ready chosen =
    let body = call_packets out.call_context (timestamp o out) call args frames in
    subst (Sends s (packets_bytes out.call_context (timestamp o out) call args frames))
      (sym (write_function_call-send o out call trace args frames s on chosen))
      (send-Sends {body = body} s
        (call_packets-Emits out.call_context (timestamp o out) call args frames) ready)

-- One call as the tracing modules hand it over.
pub record Traced : Type 0 where
  pub out : Outside
  pub call : Fcall
  pub trace : Option (List ℕ)
  pub args : Option (List Farg)

abbrev next : Option (Pipe × ℕ) → (Pipe → Option Pipe) → Option Pipe
next none k = none
next (some (s, n)) k = k s

-- Calls one after the other; `none` as for a single call.
unfoldable pub trace_all : Options → List Traced → Pipe → Option Pipe
trace_all o [] s = some s
trace_all o (t ∷ ts) s =
    next (write_function_call o t.out t.call t.trace t.args true s) (trace_all o ts)

abbrev pub event_of : Options → Traced → List ℕ → Event
event_of o t frames = record {
  context = t.out.call_context;
  time = timestamp o t.out;
  call = t.call;
  args = t.args;
  frames = frames;
}

-- The events that the calls amount to, each with the frames that are chosen for it, and each small
-- enough for the lower half of the buffer.
pub data AllChosen (o : Options) : List Traced → List Event → Type 0 where
  nil : AllChosen o [] []
  cons :
      {t : Traced} {ts : List Traced} {frames : List ℕ} {es : List Event}
      → choose_trace o t.out t.call t.trace ≡ some frames
      → length (event_bytes (event_of o t frames)) ≤ buffer_size
      → AllChosen o ts es
      → AllChosen o (t ∷ ts) (event_of o t frames ∷ es)

-- Calls whose backtraces are chosen and whose packets fit half of the buffer, on an enabled,
-- unlocked pipe in bounds, return if every `write` succeeds; the stream of bytes grows by exactly
-- their packets, in order, and the pipe is again unlocked and in bounds.
pub trace_all-stream :
    (o : Options) (ts : List Traced) (es : List Event) (s : Pipe)
    → AllChosen o ts es
    → s.enable ≡ true
    → IsReady s
    → (t : Pipe) × (trace_all o ts s ≡ some t)
      × (stream t ≡ stream s ++ events_bytes es)
      × IsReady t
unfolding trace_all events_bytes
trace_all-stream o ts es s nil on ready = (s, refl, sym (append-nil (stream s)), ready)
trace_all-stream o ts es s (cons {t} {ts = rest} {frames} {es = more} chosen small sent) on ready =
    let one = write_function_call-Sends o t.out t.call t.trace t.args frames s on ready chosen in
    let (u, ran, behind, ready') =
      trace_all-stream o rest more one.after sent (one.enabled ∙ on) (one.ready small) in
    (
      u,
      ap (λ r. next r (trace_all o rest)) one.returns ∙ ran,
      behind
          ∙ ap (λ l. l ++ events_bytes more) one.appended
          ∙ append_assoc (stream s) (event_bytes (event_of o t frames)) (events_bytes more),
      ready',
    )
