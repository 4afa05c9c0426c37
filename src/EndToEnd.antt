-- ===== src/EndToEnd.antt =====
-- From the traced process to the post-processor: src/modules/sp_rtrace_main.c writes and
-- src/rtrace-postproc/parse_binary.c reads.
pub mod Announced
pub mod Session
pub mod Shown
pub mod Relay
use sp_rtrace.Prelude.{
  ℕ, ◌+◌, ◌-◌, ◌≤◌, ◌<◌, true, List, [], ◌++◌, ◌≡◌, refl, sym, ap, subst, ◌∙◌, none, some, All,
  length, arith, take, drop, take-append-drop,
}
use sp_rtrace.Proto.Memory.{Bytes}
use sp_rtrace.Proto.Encode.{IsCString}
use sp_rtrace.Tracer.Pipe.{Pipe, flush}
use sp_rtrace.Tracer.Pipe.Stream.{
  stream, flush-written, IsReady, finish, stream-finish, finish-IsReady, finish-enable,
}
use sp_rtrace.Tracer.Handshake.{write_handshake, align_size}
use sp_rtrace.Tracer.Handshake.Stored.{
  handshake_size, handshake_bytes, length-handshake_bytes, write_handshake-finish,
}
use sp_rtrace.Tracer.Call.{Options}
use sp_rtrace.Tracer.Call.Encoded.{Event, events_bytes}
use sp_rtrace.Tracer.Call.Sent.{Traced, trace_all, AllChosen, nil, cons, trace_all-stream}
use sp_rtrace.Binary.Generic.{Parser}
use sp_rtrace.Binary.Loop.{initial, empty_rd, finished}
use sp_rtrace.Binary.Calls.View.{view_of, IsLinked}
use sp_rtrace.Binary.Calls.Arrive.{IsEvent}
use sp_rtrace.Binary.Calls.Sequence.{shown_all}
use sp_rtrace.Binary.Chunks.{Chain, read_chunks-reads}
use sp_rtrace.Binary.Chunks.Events.{Fits, chain_events}
use sp_rtrace.Binary.Start.{hshake_of, read_process, read_process-handshake}

pub AllChosen-Fits :
    {o : Options} {ts : List Traced} {es : List Event} → AllChosen o ts es → All Fits es
AllChosen-Fits nil = tt
AllChosen-Fits (cons chosen small rest) = (small, AllChosen-Fits rest)

handshake_small : (arch : Bytes) → length arch < 250 → handshake_size arch ≤ 256
unfolding align_size
handshake_small arch h = omega arith

-- The handshake in an empty pipe.
handshake_sent :
    (s : Pipe) (major minor : ℕ) (arch : Bytes)
    → IsReady s
    → s.enable ≡ true
    → stream s ≡ []
    → length arch < 250
    → (u : Pipe) × (write_handshake major minor arch true s ≡ some (u, handshake_size arch))
      × (stream u ≡ handshake_bytes s major minor arch)
      × IsReady u
      × (u.enable ≡ true)
unfolding stream
handshake_sent s major minor arch ready on empty short =
    let bs = handshake_bytes s major minor arch in
    let held = record s { locked = true } in
    let small : length bs ≤ 4096 =
      omega (arith, length-handshake_bytes s major minor arch, handshake_small arch short) in
    (
      finish held bs true,
      write_handshake-finish s major minor arch true ready.unlocked,
      stream-finish held bs ∙ ap (λ l. l ++ bs) empty,
      finish-IsReady held bs true ready.below small,
      finish-enable held bs ∙ on,
    )

reader_start :
    (arch : Bytes)
    → (2 ≤ (initial (hshake_of 2 0 arch)).rd.hshake.vmajor)
      × IsLinked (initial (hshake_of 2 0 arch)).rd
unfolding initial empty_rd
reader_start arch = (omega arith, tt)

nothing_shown :
    (arch : Bytes) (es : List Event)
    → let p = initial (hshake_of 2 0 arch) in
      view_of p.rd ++ shown_all p.res_index p.call_index es ≡ shown_all (λ i. none) 1 es
unfolding initial empty_rd
nothing_shown arch es = refl

-- Let the chosen calls of `ts` be the events `es`, each small enough for half of the buffer and
-- with values of the widths of their C types; let the pipe be enabled, unlocked, in bounds and
-- empty, the name of the architecture be a string of less than 250 characters, the ids of resource
-- types be below 33, and every `write` succeed. Then writing the handshake and all calls returns;
-- and the reader of what a last flush leaves in the pipe, if its first `read` covers the
-- handshake, and whatever sizes the later ones return, finishes without overrunning its buffer and
-- shows each call once and in order, with its own fields, arguments and frames.
pub traced_calls_arrive :
    (o : Options) (ts : List Traced) (es : List Event) (s : Pipe) (arch : Bytes) (k : ℕ)
    (sizes : List ℕ)
    → AllChosen o ts es
    → s.enable ≡ true
    → IsReady s
    → stream s ≡ []
    → IsCString arch
    → length arch < 250
    → All IsEvent es
    → (u : Pipe) × (t : Pipe) × (q : Parser) × (write_handshake 2 0 arch true s
        ≡ some (u, handshake_size arch))
      × (trace_all o ts u ≡ some t)
      × (read_process (handshake_size arch - 1 + k) sizes (flush true t).written ≡ finished q)
      × (view_of q.rd ≡ shown_all (λ i. none) 1 es)
traced_calls_arrive o ts es s arch k sizes chosen on ready empty text short fits =
    let p = initial (hshake_of 2 0 arch) in
    let (u, started, front, ready', on') = handshake_sent s 2 0 arch ready on empty short in
    let (t, ran, sent, still) = trace_all-stream o ts es u chosen on' ready' in
    let (new, linked) = reader_start arch in
    let (q, chain, seen) = chain_events p es new linked fits (AllChosen-Fits chosen) in
    let bytes = events_bytes es in
    let written = flush-written t ∙ sent ∙ ap (λ l. l ++ bytes) front in
    let cut = sym (take-append-drop k bytes) in
    let parsed =
      ap (read_process (handshake_size arch - 1 + k) sizes) written
      ∙ read_process-handshake s 2 0 arch bytes k sizes (omega arith) (omega arith) short text
      ∙ read_chunks-reads {p = p} (take k bytes) sizes (drop k bytes)
          (subst (λ l. Chain p l q) cut chain) in
    (u, t, q, started, ran, parsed, seen ∙ nothing_shown arch es)
