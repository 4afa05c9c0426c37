-- ===== src/Tests/Calls.antt =====
-- Two traced calls on their way to the reader.
use sp_rtrace.Prelude.{none, ◌-◌, ◌+◌, ◌∷◌, take, drop}
use sp_rtrace.Proto.Memory.{Bytes}
use sp_rtrace.Tracer.Pipe.Stream.{finish}
use sp_rtrace.Tracer.Handshake.{write_handshake}
use sp_rtrace.Tracer.Handshake.Stored.{handshake_size, handshake_bytes, write_handshake-finish}
use sp_rtrace.Binary.Loop.{finished, read_chunks}
use sp_rtrace.Binary.Chunks.{reads}
use sp_rtrace.Binary.Chunks.Events.{Fits, read_chunks-events}
use sp_rtrace.Binary.Start.{read_process, read_process-handshake, hshake_of}
use sp_rtrace.Prelude.{◌≤◌, true, [], ◌++◌, ◌≡◌, refl, some, arith, All}
use sp_rtrace.Tests.{ready_pipe, options, calls, events, handshake}
use sp_rtrace.Proto.Encode.{word, dword, qword, string, padding, IsString}
use sp_rtrace.Proto.Memory.{slice}
use sp_rtrace.Tracer.Pipe.{Pipe, flush}
use sp_rtrace.Tracer.Pipe.Stream.{stream, IsReady}
use sp_rtrace.Tracer.Filter.{validate}
use sp_rtrace.Tracer.Call.{choose_trace, timestamp, kept_frames, ask_depth}
use sp_rtrace.Tracer.Call.Encoded.{
  events_bytes, packets_bytes, call_bytes, args_packet_bytes, args_bytes, arg_list_bytes,
  trace_bytes, frame_bytes,
}
use sp_rtrace.Tracer.Call.Sent.{trace_all, AllChosen, nil, cons, trace_all-stream}
use sp_rtrace.Binary.Generic.{Parser}
use sp_rtrace.Binary.Loop.{more, parse_buffer, initial, empty_rd}
use sp_rtrace.Binary.Calls.View.{view_of, IsLinked}
use sp_rtrace.Binary.Calls.Arrive.{IsEvent}
use sp_rtrace.Binary.Calls.Sequence.{shown_all, parse_events}
use sp_rtrace.EndToEnd.{traced_calls_arrive}

pub calls_chosen : AllChosen options calls events
unfolding choose_trace validate kept_frames ask_depth timestamp packets_bytes call_bytes
    args_packet_bytes args_bytes arg_list_bytes trace_bytes frame_bytes string word dword qword
    padding
calls_chosen = cons refl (omega arith) (cons refl (omega arith) nil)

pub events-IsEvent : All IsEvent events
unfolding call_bytes args_bytes arg_list_bytes trace_bytes frame_bytes string word dword qword
    padding IsString
events-IsEvent = (
  record {
    fields = record {
      res_type_id = omega arith;
      context = omega arith;
      time = omega arith;
      type = omega arith;
      name = grind arith;
      res_size = omega arith;
      res_id = omega arith;
    };
    resource = omega arith;
    call_size = omega arith;
    arguments = grind arith;
    frames = grind arith;
    few_frames = omega arith;
    trace_size = omega arith;
  },
  (
    record {
      fields = record {
        res_type_id = omega arith;
        context = omega arith;
        time = omega arith;
        type = omega arith;
        name = grind arith;
        res_size = omega arith;
        res_id = omega arith;
      };
      resource = omega arith;
      call_size = omega arith;
      arguments = tt;
      frames = grind arith;
      few_frames = omega arith;
      trace_size = omega arith;
    },
    tt,
  ),
)

new_handshake : 2 ≤ (initial handshake).rd.hshake.vmajor
unfolding initial empty_rd
new_handshake = omega arith

initial-IsLinked : IsLinked (initial handshake).rd
unfolding initial empty_rd
initial-IsLinked = tt

ready_pipe-IsReady : IsReady ready_pipe
ready_pipe-IsReady = record { unlocked = refl; below = omega arith }

ready_pipe_empty : stream ready_pipe ≡ []
unfolding stream slice
ready_pipe_empty = refl

abbrev pub arch : Bytes
arch = b'x' ∷ b'8' ∷ b'6' ∷ []

-- The first `read` returns the handshake and two bytes, the second four, the third the rest.
traced_calls_arrive_example :
    (u : Pipe) × (t : Pipe) × (q : Parser) × (write_handshake 2 0 arch true ready_pipe
      ≡ some (u, handshake_size arch))
    × (trace_all options calls u ≡ some t)
    × (read_process (handshake_size arch - 1 + 2) (3 ∷ []) (flush true t).written ≡ finished q)
    × (view_of q.rd ≡ shown_all (λ i. none) 1 events)
traced_calls_arrive_example =
    traced_calls_arrive options calls events ready_pipe arch 2 (3 ∷ []) calls_chosen refl
      ready_pipe-IsReady ready_pipe_empty (grind arith) (omega arith) events-IsEvent

pub events_fit : All Fits events
unfolding packets_bytes call_bytes args_packet_bytes args_bytes arg_list_bytes trace_bytes
    frame_bytes string word dword qword padding
events_fit = (omega arith, (omega arith, tt))

read_chunks-events_example :
    (q : Parser) × (read_chunks (initial handshake) [] (reads (3 ∷ 40 ∷ []) (events_bytes events))
      ≡ finished q)
    × (view_of q.rd
        ≡ view_of (initial handshake).rd
          ++ shown_all (initial handshake).res_index (initial handshake).call_index events)
read_chunks-events_example =
    read_chunks-events (initial handshake) events (3 ∷ 40 ∷ []) new_handshake initial-IsLinked
      events-IsEvent events_fit

read_process-handshake_example :
    read_process (handshake_size arch - 1 + 2) [] (handshake_bytes ready_pipe 2 0 arch ++ arch)
    ≡ read_chunks (initial (hshake_of 2 0 arch)) (take 2 arch) (reads [] (drop 2 arch))
read_process-handshake_example =
    read_process-handshake ready_pipe 2 0 arch arch 2 [] (omega arith) (omega arith) (omega arith)
      (grind arith)

write_handshake-finish_example :
    write_handshake 2 0 arch true ready_pipe
    ≡ some (
      finish (record ready_pipe { locked = true }) (handshake_bytes ready_pipe 2 0 arch) true,
      handshake_size arch,
    )
write_handshake-finish_example = write_handshake-finish ready_pipe 2 0 arch true refl

parse_events_example :
    (q : Parser) × (parse_buffer (initial handshake) (events_bytes events) ≡ more q [])
    × (view_of q.rd
        ≡ view_of (initial handshake).rd
          ++ shown_all (initial handshake).res_index (initial handshake).call_index events)
parse_events_example =
    parse_events (initial handshake) events new_handshake initial-IsLinked events-IsEvent

trace_all-stream_example :
    (t : Pipe) × (trace_all options calls ready_pipe ≡ some t)
    × (stream t ≡ stream ready_pipe ++ events_bytes events)
    × IsReady t
trace_all-stream_example =
    trace_all-stream options calls events ready_pipe calls_chosen refl ready_pipe-IsReady
