-- ===== src/Binary/Calls/Arrive.antt =====
-- The packets of one call, and of a list of calls, in the inner loop of the reader.
use sp_rtrace.Prelude.{
  ℕ, ◌+◌, ◌-◌, ◌^◌, ◌<◌, true, List, [], ◌∷◌, ◌++◌, ◌≡◌, Option, none, some, map, length, arith,
  ltb,
}
use sp_rtrace.Proto.Memory.{Bytes}
use sp_rtrace.Proto.Types.{function_call, function_args, backtrace}
use sp_rtrace.Tracer.Call.{Farg}
use sp_rtrace.Tracer.Call.Encoded.{call_bytes, args_bytes, trace_bytes, Event}
use sp_rtrace.Binary.Data
use sp_rtrace.Binary.Data.{Rd, modify, set_ftrace}
use sp_rtrace.Binary.Generic.{Parser, dispatch, add_call, add_args, add_trace, res_index_size}
use sp_rtrace.Binary.ReadBack.{
  IsFcall, fcall_of, AreFrames, AreArgs, arg_of, read_fcall-call_bytes, read_ftrace-trace_bytes,
  read_fargs-args_bytes,
}

abbrev pub max_payload : ℕ
max_payload = 2 ^ 31 - 8

abbrev pub AreArgsOpt : Option (List Farg) → Type 0
AreArgsOpt none = Unit
AreArgsOpt (some args) =
    AreArgs args × (length args < 2 ^ 32) × (length (args_bytes args) < max_payload)

-- An event whose values have the widths of their C types, whose packets have sizes that are ints,
-- and whose resource type is a number that the registry hands out.
pub record IsEvent (e : Event) : Type 0 where
  pub fields : IsFcall e.context e.time e.call
  pub resource : e.call.res_type_id < res_index_size
  pub call_size : length (call_bytes e.context e.time e.call) < max_payload
  pub arguments : AreArgsOpt e.args
  pub frames : AreFrames e.frames
  pub few_frames : length e.frames < 2 ^ 31
  pub trace_size : length (trace_bytes e.frames) < max_payload

module _ (p : Parser) (e : Event) where
  abbrev pub here : ℕ
  here = length p.rd.calls

  abbrev pub called : Data.Fcall
  called = record (fcall_of p.call_index e.context e.time e.call) {
    res_type = p.res_index e.call.res_type_id;
  }

  abbrev pub with_call : Parser
  with_call = record p {
    rd = record p.rd { calls = p.rd.calls ++ called ∷ [] };
    call_index = p.call_index + 1;
    fcall_prev = some here;
  }

  abbrev pub set_args : List Farg → Data.Fcall → Data.Fcall
  set_args args c = record c { args = some (map arg_of args) }

  abbrev pub with_args : Option (List Farg) → Parser
  with_args none = with_call
  with_args (some args) = record with_call {
    rd = record with_call.rd { calls = modify (set_args args) (p.rd.calls ++ called ∷ []) here };
  }

  abbrev pub with_trace : Parser
  with_trace = record (with_args e.args) {
    rd = set_ftrace (with_args e.args).rd here e.frames;
    fcall_prev = none;
  }

  pub dispatch-call :
      (rest : Bytes)
      → IsEvent e
      → dispatch function_call p (call_bytes e.context e.time e.call ++ rest)
        ≡ some (some with_call)
  unfolding dispatch add_call
  dispatch-call rest h =
      let i : ltb e.call.res_type_id res_index_size ≡ true = let r = h.resource in ground arith in
      rw (read_fcall-call_bytes p.call_index e.context e.time e.call rest h.fields, i)

  pub dispatch-args :
      (args : List Farg) (rest : Bytes)
      → AreArgsOpt (some args)
      → dispatch function_args with_call (args_bytes args ++ rest)
        ≡ some (some (with_args (some args)))
  unfolding dispatch add_args
  dispatch-args args rest h = rw (read_fargs-args_bytes args rest h.1 h.0)

  pub dispatch-trace :
      (args : Option (List Farg)) (rest : Bytes)
      → IsEvent e
      → dispatch backtrace (with_args args) (trace_bytes e.frames ++ rest)
        ≡ some (
            some (record (with_args args) {
              rd = set_ftrace (with_args args).rd here e.frames;
              fcall_prev = none;
            }))
  unfolding dispatch add_trace
  dispatch-trace none rest h = rw (read_ftrace-trace_bytes e.frames rest h.few_frames h.frames)
  dispatch-trace (some args) rest h =
      rw (read_ftrace-trace_bytes e.frames rest h.few_frames h.frames)
