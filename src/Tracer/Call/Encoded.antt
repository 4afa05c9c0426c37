-- ===== src/Tracer/Call/Encoded.antt =====
-- The bytes of the call, argument and backtrace packets.
use sp_rtrace.Prelude.{
  ℕ, List, [], ◌∷◌, ◌++◌, sym, ◌∙◌, ap, Option, none, some, length, append-nil, arith,
}
use sp_rtrace.Proto.Memory.{Bytes, store}
use sp_rtrace.Proto.Encode.{dword, qword, string}
use sp_rtrace.Proto.Write.{
  write_dword, write_pointer, write_string, write_dword-Writes, write_pointer-Writes,
  write_string-Writes,
}
use sp_rtrace.Tracer.Packet.{put, reserve, packet}
use sp_rtrace.Tracer.Packet.Emits.{
  after, Emits, Emits-then, one, more, put-Emits, put_all-Emits, packet-Emits, framed,
  reserve-insert,
}
use sp_rtrace.Proto.Types.{function_call, function_args, backtrace}
use sp_rtrace.Tracer.Call.{
  Fcall, Farg, call_body, put_args, args_body, put_frames, trace_body, put_args_packet,
  call_packets,
}

ruleset writes = (one, more, write_dword-Writes, write_string-Writes, write_pointer-Writes)

unfoldable pub call_bytes : ℕ → ℕ → Fcall → Bytes
call_bytes context time call =
    dword call.res_type_id
    ++ (dword context
        ++ (dword time
            ++ (dword call.type
                ++ (string call.name ++ (dword call.res_size ++ qword call.res_id)))))

unfoldable pub arg_list_bytes : List Farg → Bytes
arg_list_bytes [] = []
arg_list_bytes (a ∷ args) = string (some a.name) ++ (string a.value ++ arg_list_bytes args)

unfoldable pub frame_bytes : List ℕ → Bytes
frame_bytes [] = []
frame_bytes (f ∷ fs) = qword f ++ frame_bytes fs

unfoldable pub args_bytes : List Farg → Bytes
args_bytes args = dword (length args) ++ arg_list_bytes args

unfoldable pub trace_bytes : List ℕ → Bytes
trace_bytes fs = dword (length fs) ++ frame_bytes fs

-- The argument packet is left out where the caller gives no arguments.
unfoldable pub args_packet_bytes : Option (List Farg) → Bytes
args_packet_bytes none = []
args_packet_bytes (some args) = framed function_args (args_bytes args)

unfoldable pub packets_bytes : ℕ → ℕ → Fcall → Option (List Farg) → List ℕ → Bytes
packets_bytes context time call args frames =
    (framed function_call (call_bytes context time call) ++ args_packet_bytes args)
    ++ framed backtrace (trace_bytes frames)

-- One traced call: what `sp_rtrace_write_function_call` puts into its packets.
pub record Event : Type 0 where
  pub context : ℕ
  pub time : ℕ
  pub call : Fcall
  pub args : Option (List Farg)
  pub frames : List ℕ

abbrev pub event_bytes : Event → Bytes
event_bytes e = packets_bytes e.context e.time e.call e.args e.frames

-- What the tracing module sends for a sequence of calls.
unfoldable pub events_bytes : List Event → Bytes
events_bytes [] = []
events_bytes (e ∷ es) = event_bytes e ++ events_bytes es

pub call_body-Emits :
    (context time : ℕ) (call : Fcall)
    → Emits (call_body context time call) (call_bytes context time call)
unfolding call_body call_bytes
call_body-Emits context time call = put_all-Emits (search writes depth 9)

nothing-Emits : Emits (λ c. c) []
unfolding store
nothing-Emits = record { run = λ c. ap (λ p. record { memory = c.memory; ptr = p }) (omega arith) }

put_args-Emits : (args : List Farg) → Emits (put_args args) (arg_list_bytes args)
unfolding put_args arg_list_bytes
put_args-Emits [] = record { run = nothing-Emits.run }
put_args-Emits (a ∷ args) = record {
  run =
      (Emits-then {f = put (write_string (some a.name))}
        (put-Emits (write_string-Writes (some a.name)))
        (Emits-then {f = put (write_string a.value)} {g = put_args args}
          (put-Emits (write_string-Writes a.value)) (put_args-Emits args))).run;
}

put_frames-Emits : (fs : List ℕ) → Emits (put_frames fs) (frame_bytes fs)
unfolding put_frames frame_bytes
put_frames-Emits [] = record { run = nothing-Emits.run }
put_frames-Emits (f ∷ fs) = record {
  run =
      (Emits-then {f = put (write_pointer f)} {g = put_frames fs}
        (put-Emits (write_pointer-Writes f)) (put_frames-Emits fs)).run;
}

args_body-Emits : (args : List Farg) → Emits (args_body args) (args_bytes args)
unfolding args_body args_bytes
args_body-Emits args = record {
  run = λ c.
      rw ((put_args-Emits args).run (reserve 4 c))
        (reserve-insert c (arg_list_bytes args) (length args));
}

trace_body-Emits : (fs : List ℕ) → Emits (trace_body fs) (trace_bytes fs)
unfolding trace_body trace_bytes frame_bytes
trace_body-Emits [] = record {
  run = λ c. (put-Emits (write_dword-Writes 0)).run c ∙ ap (after c) (sym (append-nil (dword 0)));
}
trace_body-Emits (f ∷ fs) = record {
  run =
      (Emits-then {f = put (write_dword (length (f ∷ fs)))} {g = put_frames (f ∷ fs)}
        (put-Emits (write_dword-Writes (length (f ∷ fs)))) (put_frames-Emits (f ∷ fs))).run;
}

put_args_packet-Emits :
    (args : Option (List Farg)) → Emits (put_args_packet args) (args_packet_bytes args)
unfolding put_args_packet args_packet_bytes
put_args_packet-Emits none = record { run = nothing-Emits.run }
put_args_packet-Emits (some args) = record {
  run = (packet-Emits function_args (args_body-Emits args)).run;
}

-- The packets of a call, with any arguments and any frames, emit exactly the framed call, the
-- framed arguments where there are some, and the framed backtrace.
pub call_packets-Emits :
    (context time : ℕ) (call : Fcall) (args : Option (List Farg)) (frames : List ℕ)
    → Emits
        (call_packets context time call args frames)
        (packets_bytes context time call args frames)
unfolding call_packets packets_bytes
call_packets-Emits context time call args frames = record {
  run =
      (Emits-then
        {f = λ c. put_args_packet args (packet function_call (call_body context time call) c)}
        {g = packet backtrace (trace_body frames)}
        (Emits-then {f = packet function_call (call_body context time call)}
          {g = put_args_packet args}
          (packet-Emits function_call (call_body-Emits context time call))
          (put_args_packet-Emits args))
        (packet-Emits backtrace (trace_body-Emits frames))).run;
}
