-- ===== src/EndToEnd/Relay.antt =====
-- From the traced process through the listener to the post-processor: src/modules/sp_rtrace_main.c
-- writes, src/rtrace/listener.c passes on, and src/rtrace-postproc/parse_binary.c reads.
use sp_rtrace.Prelude.{
  ℕ, ◌+◌, ◌-◌, ◌<◌, true, false, List, [], ◌++◌, ◌≡◌, sym, ap, ap₂, ◌∙◌, none, some, All, length,
  append_assoc, arith, take, drop,
}
use sp_rtrace.Tracer.Pipe.{Pipe, flush, reset}
use sp_rtrace.Tracer.Pipe.Stream.{flush-written}
use sp_rtrace.Tracer.Packet.Emits.{packets}
use sp_rtrace.Tracer.Handshake.Stored.{handshake_size, handshake_bytes, length-handshake_bytes}
use sp_rtrace.Tracer.Initial.{Initial, write_initial_data, first_packets}
use sp_rtrace.Tracer.Initial.Written.{write_initial_data-written, stream-sent}
use sp_rtrace.Tracer.Call.{Options}
use sp_rtrace.Tracer.Call.Encoded.{Event, events_bytes}
use sp_rtrace.Tracer.Call.Sent.{Traced, trace_all, AllChosen, trace_all-stream}
use sp_rtrace.Rtrace.Listener.{Listener, System}
use sp_rtrace.Rtrace.Listener.Special.{connected}
use sp_rtrace.Rtrace.Listener.Loop.{got, returns_0, process_data}
use sp_rtrace.Rtrace.Listener.Passing.{arrivals}
use sp_rtrace.Rtrace.Listener.Session.{
  session_bytes, relayed_bytes, lines_of, process_data-relayed_bytes,
}
use sp_rtrace.Binary.Generic.{Parser}
use sp_rtrace.Binary.Loop.{finished}
use sp_rtrace.Binary.Calls.View.{view_of}
use sp_rtrace.Binary.Calls.Arrive.{IsEvent}
use sp_rtrace.Binary.Calls.Sequence.{shown_all}
use sp_rtrace.Binary.Start.{take-split, drop-split, read_process}
use sp_rtrace.EndToEnd.{AllChosen-Fits}
use sp_rtrace.EndToEnd.Announced.{index_from}
use sp_rtrace.EndToEnd.Session.{
  first_packets-IsFirst, session_of, session_of-IsSession, session_bytes-session_of,
  handshake_bytes-IsHandshake,
}
use sp_rtrace.EndToEnd.Shown.{IsInitial, IsLine, fits_lines, relayed_shown}

-- Let a process announce itself on an enabled, unlocked pipe that nothing was written to, and then
-- trace the chosen calls of `ts`, which are the events `es`; let every announcement and every
-- event fit half of the buffer and have values of the widths of their C types, the ids of resource
-- types be below 33, the architecture be a string of less than 250 characters, and every line of
-- the maps file have a name that is a string and fits a packet; let every `write` succeed, and let
-- the listener start with nothing written or buffered and connect its output. Then the
-- announcements and the calls are written; the listener, however the bytes are cut into the pieces
-- that its `read` returns, the first of which covers the handshake, ends without a fault; and the
-- reader of what the listener has written, whatever its own `read` returns, finishes and shows
-- each call once and in order, with its fields, arguments, frames and the type that was announced
-- for it.
pub traced_calls_pass_listener :
    (d : Initial) (o : Options) (ts : List Traced) (es : List Event) (s : Pipe) (outs : ℕ → System)
    (l : Listener) (j k : ℕ) (pieces sizes : List ℕ)
    → IsInitial d
    → AllChosen o ts es
    → All IsEvent es
    → s.enable ≡ true
    → s.locked ≡ false
    → s.written ≡ []
    → ((i : ℕ) → (outs i).answer ≡ true)
    → l.written ≡ []
    → l.output_buffer ≡ []
    → 0 < (connected (outs 0) d.output_dir d.postproc l).fd_out
    → All IsLine (lines_of outs (session_of d es))
    → (t : Pipe) × (u : Pipe) × (v : Listener) × (q : Parser) × (write_initial_data d true s
        ≡ some t)
      × (trace_all o ts t ≡ some u)
      × (process_data outs
            (got (take (handshake_size d.arch + j) (flush true u).written))
            (arrivals pieces (drop (handshake_size d.arch + j) (flush true u).written))
            l
          ≡ returns_0 v)
      × (read_process (handshake_size d.arch - 1 + k) sizes v.written ≡ finished q)
      × (view_of q.rd ≡ shown_all (index_from 0 (λ i. none) d.resources) 1 es)
traced_calls_pass_listener d o ts es s outs l j k pieces sizes h chosen valid on unlocked fresh ok
      blank empty live lines =
    let x = session_of d es in
    let hs = handshake_bytes (reset s) 2 0 d.arch in
    let fits = AllChosen-Fits chosen in
    let (t, began, sent, flushed, ready, on') =
      write_initial_data-written d s on unlocked h.short h.small in
    let (u, traced, more, still) = trace_all-stream o ts es t chosen on' ready in
    let session =
      session_of-IsSession d es (first_packets-IsFirst d h.small) h.output_dir h.postproc fits in
    let (v, passed, written, flushed') =
      process_data-relayed_bytes outs ok l hs x j pieces empty live
        (handshake_bytes-IsHandshake (reset s) d.arch h.short) session
        (fits_lines (lines_of outs x) lines) in
    let (q, read, seen) =
      relayed_shown (reset s) (outs 1) (lines_of outs x) d es k sizes h lines valid fits in
    let bytes : (flush true u).written ≡ hs ++ session_bytes x =
      flush-written u
      ∙ more
      ∙ ap (λ b. b ++ events_bytes es)
          (stream-sent t flushed ∙ sent ∙ ap (λ b. b ++ (hs ++ packets (first_packets d))) fresh)
      ∙ append_assoc hs (packets (first_packets d)) (events_bytes es)
      ∙ ap (λ b. hs ++ b) (sym (session_bytes-session_of d es)) in
    let n : handshake_size d.arch + j ≡ length hs + j =
      omega (arith, length-handshake_bytes (reset s) 2 0 d.arch) in
    (
      t,
      u,
      v,
      q,
      began,
      traced,
      ap₂ (λ a b. process_data outs (got a) (arrivals pieces b) l)
            (ap₂ take n bytes ∙ take-split hs (session_bytes x) j)
            (ap₂ drop n bytes ∙ drop-split hs (session_bytes x) j)
          ∙ passed,
      ap (read_process (handshake_size d.arch - 1 + k) sizes)
            (written ∙ ap (λ b. b ++ (hs ++ relayed_bytes (outs 1) (lines_of outs x) x)) blank)
          ∙ read,
      seen,
    )
