-- ===== src/Tracer/Call.antt =====
-- `sp_rtrace_write_function_call` of src/modules/sp_rtrace_main.c: the call, its arguments and its
-- backtrace go out as up to three packets under one lock.
pub mod Encoded
pub mod Sent
pub mod Depth
use sp_rtrace.Prelude.{
  ℕ, zero, suc, ◌+◌, ◌-◌, ◌*◌, ◌/◌, ◌%◌, ◌^◌, Bool, true, false, List, [], ◌∷◌, Option, none, some,
  not, if◌then◌else◌, ◌==◌, ltb, length, take, drop, ◌&&◌,
}
use sp_rtrace.Proto.Memory.{Bytes}
use sp_rtrace.Proto.Write.{Writer, write_dword, write_pointer, write_string}
use sp_rtrace.Tracer.Pipe.{Pipe}
use sp_rtrace.Tracer.Packet.{Cursor, put, reserve, insert_at, put_all, packet, send}
use sp_rtrace.Tracer.Filter.{SizeFilter, validate}
use sp_rtrace.Proto.Types.{function_call, function_args, backtrace}

pub record Fcall : Type 0 where
  pub type : ℕ
  pub name : Option Bytes
  pub res_type_id : ℕ
  pub res_id : ℕ
  pub res_size : ℕ

-- `name` ends the array where it is a null pointer, so the list holds those in front.
pub record Farg : Type 0 where
  pub name : Bytes
  pub value : Option Bytes

-- The fields of `sp_rtrace_options_t` that the function reads, less `enable`.
pub record Options : Type 0 where
  pub backtrace_depth : ℕ
  pub enable_timestamps : Bool
  pub filter : SizeFilter

-- What the process is given from outside: `backtrace_impl` at a depth, the mask of contexts,
-- CLOCK_MONOTONIC (seconds and nanoseconds, unless the call fails), and whether the thread holds
-- `backtrace_lock` already.
pub record Outside : Type 0 where
  pub frames : ℕ → List ℕ
  pub call_context : ℕ
  pub clock : Option (ℕ × ℕ)
  pub backtrace_lock : Bool

abbrev pub skip_top : ℕ
skip_top = 3

abbrev pub skip_bottom : ℕ
skip_bottom = 0

-- The number of elements of `bt_frames`.
abbrev pub max_frames : ℕ
max_frames = 256

-- The depth that `backtrace_impl` is asked for.
unfoldable pub ask_depth : ℕ → ℕ
ask_depth depth =
    let d = depth + skip_top + skip_bottom in if ltb max_frames d then max_frames else d

-- The frames of the tracer itself are dropped, and what is left is cut to the depth. A negative
-- number of frames is 0 here; neither makes a trace.
unfoldable pub kept_frames : ℕ → List ℕ → List ℕ
kept_frames depth frames =
    let n = length frames - (skip_top + skip_bottom) in
    take (if ltb depth n then depth else n) (drop skip_top frames)

-- The trace that is written: the caller's, or one that is taken here if the filter says so.
-- `none`: the filter reads out of bounds, or the lock shows a recursion and the process exits.
unfoldable pub choose_trace : Options → Outside → Fcall → Option (List ℕ) → Option (List ℕ)
choose_trace o out call (some trace) = some trace
choose_trace o out call none =
    if o.backtrace_depth == 0 then some [] else elim (validate o.filter call.type call.res_size) [
      | none ↦ none
      | some false ↦ some []
      | some true ↦
          if out.backtrace_lock
          then none
          else some (kept_frames o.backtrace_depth (out.frames (ask_depth o.backtrace_depth)))
    ]

clock_ms : Option (ℕ × ℕ) → ℕ
clock_ms none = 0
clock_ms (some (sec, nsec)) = nsec / 1000000 + sec % (60 * 60 * 24) * 1000

unfoldable pub timestamp : Options → Outside → ℕ
unfolding clock_ms
timestamp o out = if o.enable_timestamps then clock_ms out.clock else 0

unfoldable pub call_body : ℕ → ℕ → Fcall → Cursor → Cursor
call_body context time call = put_all (
    write_dword call.res_type_id
    ∷ write_dword context
    ∷ write_dword time
    ∷ write_dword call.type
    ∷ write_string call.name
    ∷ write_dword call.res_size
    ∷ write_pointer call.res_id
    ∷ [])

-- `while (args->name)`
unfoldable pub put_args : List Farg → Cursor → Cursor
put_args [] c = c
put_args (a ∷ args) c =
    put_args args (put (write_string a.value) (put (write_string (some a.name)) c))

-- The number of arguments is filled in last.
unfoldable pub args_body : List Farg → Cursor → Cursor
args_body args c = insert_at c.ptr (write_dword (length args)) (put_args args (reserve 4 c))

unfoldable pub put_frames : List ℕ → Cursor → Cursor
put_frames [] c = c
put_frames (f ∷ fs) c = put_frames fs (put (write_pointer f) c)

-- An empty trace is a packet with the number 0.
unfoldable pub trace_body : List ℕ → Cursor → Cursor
trace_body [] c = put (write_dword 0) c
trace_body (f ∷ fs) c = put_frames (f ∷ fs) (put (write_dword (length (f ∷ fs))) c)

unfoldable pub put_args_packet : Option (List Farg) → Cursor → Cursor
put_args_packet none c = c
put_args_packet (some args) c = packet function_args (args_body args) c

unfoldable pub call_packets : ℕ → ℕ → Fcall → Option (List Farg) → List ℕ → Cursor → Cursor
call_packets context time call args frames c =
    packet backtrace (trace_body frames)
      (put_args_packet args (packet function_call (call_body context time call) c))

unfoldable pub write_function_call :
    Options
    → Outside
    → Fcall
    → Option (List ℕ)
    → Option (List Farg)
    → Bool
    → Pipe
    → Option (Pipe × ℕ)
write_function_call o out call trace args answer s =
    if not s.enable then some (s, 0) else elim (choose_trace o out call trace) [
      | none ↦ none
      | some frames ↦
          send (call_packets out.call_context (timestamp o out) call args frames) answer s
    ]
