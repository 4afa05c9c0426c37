-- ===== src/Binary/Calls/View.antt =====
-- What a report shows of the calls: each with the frames that its backtrace pointer leads to.
use sp_rtrace.Prelude.{ℕ, List, [], ◌∷◌, ◌≡◌, refl, ap₂, Option, none, some, map, All}
use sp_rtrace.Proto.Memory.{Bytes}
use sp_rtrace.Tracer.Call.{Farg}
use sp_rtrace.Tracer.Call.Encoded.{Event}
use sp_rtrace.Binary.Data
use sp_rtrace.Binary.Data.{Rd, Ftrace}
use sp_rtrace.Binary.ReadBack.{fcall_of, arg_of}
use sp_rtrace.Binary.Traces.{frames_at, InTable}

-- The call without its pointer, and the frames.
abbrev pub CallView : Type 0
CallView = Data.Fcall × Option (List ℕ)

abbrev pub view_call : List Ftrace → Data.Fcall → CallView
view_call ts c = (record c { trace = none }, frames_at ts c.trace)

abbrev pub view_of : Rd → List CallView
view_of rd = map (view_call rd.ftraces) rd.calls

-- No call points out of the table.
abbrev pub IsLinked : Rd → Type 0
IsLinked rd = All (λ c. InTable rd.ftraces c.trace) rd.calls

abbrev pub args_of : Option (List Farg) → Option (List (Bytes × Bytes))
args_of none = none
args_of (some args) = some (map arg_of args)

-- The call that a report should show for the event: every field as it was traced, the place in the
-- sequence, the registered resource, the arguments and the frames.
abbrev pub shown : (ℕ → Option ℕ) → ℕ → Event → CallView
shown res_index index e = (
  record (fcall_of index e.context e.time e.call) {
    res_type = res_index e.call.res_type_id;
    args = args_of e.args;
  },
  some e.frames,
)

-- The table `ts` keeps what `us` holds.
abbrev pub Keeps : List Ftrace → List Ftrace → Type 0
Keeps us ts = (o : Option ℕ) → InTable us o → (frames_at ts o ≡ frames_at us o) × InTable ts o

pub view-Keeps :
    (us ts : List Ftrace) (cs : List Data.Fcall)
    → Keeps us ts
    → All (λ c. InTable us c.trace) cs
    → (map (view_call ts) cs ≡ map (view_call us) cs) × All (λ c. InTable ts c.trace) cs
view-Keeps us ts [] k h = (refl, tt)
view-Keeps us ts (c ∷ cs) k h =
    let (same, inside) = k c.trace h.0 in
    let (rest, linked) = view-Keeps us ts cs k h.1 in
    (ap₂ (λ o l. (record c { trace = none }, o) ∷ l) same rest, (inside, linked))
