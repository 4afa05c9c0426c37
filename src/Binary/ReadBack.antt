-- ===== src/Binary/ReadBack.antt =====
-- Each packet reader on the fields that the tracing module writes.
use sp_rtrace.Prelude.{
  ℕ, ◌+◌, ◌*◌, ◌/◌, ◌%◌, ◌^◌, ◌≤◌, ◌<◌, true, false, List, [], ◌∷◌, ◌++◌, ◌≡◌, refl, ap, none, some,
  ltb, length, append_assoc, arith, map, All,
}
use sp_rtrace.Proto.Memory.{Bytes}
use sp_rtrace.Proto.Encode.{IsString}
use sp_rtrace.Proto.Read.{sign_extend}
use sp_rtrace.Proto.RoundTrip.{
  read_dword-dword, read_dword2long-dword, read_pointer-qword, read_stringa-string, text_of,
}
use sp_rtrace.Tracer.Events.{Module, Resource, Context, Process}
use sp_rtrace.Tracer.Events.Encoded.{module_bytes, resource_bytes, context_bytes, process_bytes}
use sp_rtrace.Tracer.Call.{Fcall, Farg}
use sp_rtrace.Tracer.Call.Encoded.{call_bytes, arg_list_bytes, args_bytes, frame_bytes, trace_bytes}
use sp_rtrace.Binary.Data
use sp_rtrace.Binary.Packets.{
  check_version, read_context, read_flags, read_resource, read_depth, read_pinfo, read_minfo,
  read_fcall, read_frames, read_ftrace, read_arg_list, read_fargs,
}

ruleset reads = (append_assoc, read_dword-dword, read_dword2long-dword, read_pointer-qword)

pub mod_small : {v n : ℕ} → v < n → v % n ≡ v
mod_small {v} {n} h = grind arith

sign_small : (v : ℕ) → v < 2 ^ 31 → sign_extend (v % 2 ^ 32) ≡ v
sign_small v h = ground arith

-- What the reader makes of a module: text, and the rest as written.
abbrev pub minfo_of : Module → Data.Minfo
minfo_of m = record { id = m.id; vmajor = m.vmajor; vminor = m.vminor; name = text_of m.name }

pub record IsModule (m : Module) : Type 0 where
  pub id : m.id < 2 ^ 32
  pub vmajor : m.vmajor < 256
  pub vminor : m.vminor < 256
  pub name : IsString m.name

minfo_fields :
    (m : Module)
    → IsModule m
    → Path Data.Minfo
        (record {
          id = m.id % 2 ^ 32;
          vmajor = (m.vmajor * 2 ^ 16 + m.vminor) % 2 ^ 32 / 2 ^ 16 % 256;
          vminor = (m.vmajor * 2 ^ 16 + m.vminor) % 2 ^ 32 % 2 ^ 16 % 256;
          name = text_of m.name;
        })
        (minfo_of m)
minfo_fields m h = ground arith

-- For a module whose id has 32 bits and whose version numbers have 8 bits, the reader of module
-- packets gives back id, version and name.
pub read_minfo-module_bytes :
    (m : Module) (rest : Bytes)
    → IsModule m
    → read_minfo (module_bytes m ++ rest) ≡ some (minfo_of m, rest)
unfolding read_minfo module_bytes
read_minfo-module_bytes m rest h =
    simp (reads, read_stringa-string m.name h.name) (ap (λ i. some (i, rest)) (minfo_fields m h))

abbrev pub context_of : Context → Data.Context
context_of c = record { id = c.id; name = text_of c.name }

pub read_context-context_bytes :
    (c : Context) (rest : Bytes)
    → c.id < 2 ^ 31
    → IsString c.name
    → read_context (context_bytes c ++ rest) ≡ some (context_of c, rest)
unfolding read_context context_bytes
read_context-context_bytes c rest small h =
    simp (reads, read_stringa-string c.name h, sign_small c.id small)

abbrev pub resource_of : Resource → Data.Resource
resource_of r = record {
  id = r.id;
  type = text_of r.type;
  desc = text_of r.desc;
  flags = r.flags;
  hide = false;
}

pub record IsResource (r : Resource) : Type 0 where
  pub id : r.id < 2 ^ 31
  pub flags : r.flags < 2 ^ 32
  pub type : IsString r.type
  pub desc : IsString r.desc

-- From protocol 2.0 on, for a resource whose id is a non-negative int and whose flags have 32
-- bits, the reader of resource packets gives back id, flags, type and description.
pub read_resource-resource_bytes :
    (hs : Data.Hshake) (r : Resource) (rest : Bytes)
    → 2 ≤ hs.vmajor
    → IsResource r
    → read_resource hs (resource_bytes r ++ rest) ≡ some (resource_of r, rest)
unfolding read_resource resource_bytes read_flags check_version
read_resource-resource_bytes hs r rest new h =
    let v : ltb 1 hs.vmajor ≡ true = ground arith in
    simp (
      v,
      reads,
      read_stringa-string r.type h.type,
      read_stringa-string r.desc h.desc,
      sign_small r.id h.id,
      mod_small h.flags,
    )

-- The reader does not see the two zero words as anything but the time of the start.
abbrev pub pinfo_of : Process → Data.Pinfo
pinfo_of p = record {
  pid = p.pid;
  sec = 0;
  usec = 0;
  backtrace_depth = some p.backtrace_depth;
  name = text_of p.name;
}

pub record IsProcess (p : Process) : Type 0 where
  pub pid : p.pid < 2 ^ 32
  pub backtrace_depth : p.backtrace_depth < 2 ^ 32
  pub name : IsString p.name

-- From protocol 2.0 on, for a process whose id and backtrace depth have 32 bits, the reader of
-- process packets gives back id, depth and name, and a start time of zero.
pub read_pinfo-process_bytes :
    (hs : Data.Hshake) (p : Process) (rest : Bytes)
    → 2 ≤ hs.vmajor
    → IsProcess p
    → read_pinfo hs (process_bytes p ++ rest) ≡ some (pinfo_of p, rest)
unfolding read_pinfo process_bytes read_depth check_version
read_pinfo-process_bytes hs p rest new h =
    let v : ltb 1 hs.vmajor ≡ true = ground arith in
    simp (v, reads, read_stringa-string p.name h.name, mod_small h.pid, mod_small h.backtrace_depth)

pub record IsFcall (mask stamp : ℕ) (call : Fcall) : Type 0 where
  pub res_type_id : call.res_type_id < 2 ^ 31
  pub context : mask < 2 ^ 32
  pub time : stamp < 2 ^ 32
  pub type : call.type < 2 ^ 32
  pub name : IsString call.name
  pub res_size : call.res_size < 2 ^ 32
  pub res_id : call.res_id < 2 ^ 64

-- The call as the reader stores it before it looks its resource type up.
abbrev pub fcall_of : ℕ → ℕ → ℕ → Fcall → Data.Fcall
fcall_of index context time call = record {
  index = index;
  type = call.type;
  context = context;
  timestamp = time;
  name = text_of call.name;
  res_type = none;
  res_id = call.res_id;
  res_size = call.res_size;
  trace = none;
  args = none;
}

-- For a call whose values have the widths of their C types, the reader of call packets gives back
-- each of its fields and the number of its resource type.
pub read_fcall-call_bytes :
    (index context time : ℕ) (call : Fcall) (rest : Bytes)
    → IsFcall context time call
    → read_fcall index (call_bytes context time call ++ rest)
      ≡ some ((call.res_type_id, fcall_of index context time call), rest)
unfolding read_fcall call_bytes
read_fcall-call_bytes index context time call rest h = simp (
  reads,
  read_stringa-string call.name h.name,
  sign_small call.res_type_id h.res_type_id,
  mod_small h.context,
  mod_small h.time,
  mod_small h.type,
  mod_small h.res_size,
  mod_small h.res_id,
)

abbrev pub AreFrames : List ℕ → Type 0
AreFrames = All (λ f. f < 2 ^ 64)

read_frames-frame_bytes :
    (fs : List ℕ) (rest : Bytes)
    → AreFrames fs
    → read_frames (length fs) (frame_bytes fs ++ rest) ≡ some (fs, rest)
unfolding read_frames frame_bytes
read_frames-frame_bytes [] rest h = refl
read_frames-frame_bytes (f ∷ fs) rest h =
    simp (reads, read_frames-frame_bytes fs rest h.1, mod_small h.0)

pub read_ftrace-trace_bytes :
    (fs : List ℕ) (rest : Bytes)
    → length fs < 2 ^ 31
    → AreFrames fs
    → read_ftrace (trace_bytes fs ++ rest) ≡ some (fs, rest)
unfolding read_ftrace trace_bytes
read_ftrace-trace_bytes fs rest few h =
    simp (reads, sign_small (length fs) few, read_frames-frame_bytes fs rest h)

abbrev pub AreArgs : List Farg → Type 0
AreArgs = All (λ a. IsString (some a.name) × IsString a.value)

abbrev pub arg_of : Farg → Bytes × Bytes
arg_of a = (a.name, text_of a.value)

read_arg_list-arg_list_bytes :
    (args : List Farg) (rest : Bytes)
    → AreArgs args
    → read_arg_list (length args) (arg_list_bytes args ++ rest) ≡ some (map arg_of args, rest)
unfolding read_arg_list arg_list_bytes
read_arg_list-arg_list_bytes [] rest h = refl
read_arg_list-arg_list_bytes (a ∷ args) rest h = simp (
  reads,
  read_stringa-string (some a.name) h.0.0,
  read_stringa-string a.value h.0.1,
  read_arg_list-arg_list_bytes args rest h.1,
)

pub read_fargs-args_bytes :
    (args : List Farg) (rest : Bytes)
    → length args < 2 ^ 32
    → AreArgs args
    → read_fargs (args_bytes args ++ rest) ≡ some (map arg_of args, rest)
unfolding read_fargs args_bytes
read_fargs-args_bytes args rest few h =
    simp (reads, mod_small few, read_arg_list-arg_list_bytes args rest h)
