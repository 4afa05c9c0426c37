-- ===== src/Binary/Generic.antt =====
-- `read_generic_packet` of src/rtrace-postproc/parse_binary.c.
use sp_rtrace.Prelude.{
  ℕ, ◌+◌, ◌%◌, ◌^◌, Bool, false, List, [], ◌∷◌, ◌++◌, Option, none, some, ◌==◌, ltb, ◌&&◌, not,
  if◌then◌else◌, length,
}
use sp_rtrace.Proto.Memory.{Bytes}
use sp_rtrace.Proto.Read.{Reader, and_then, read_dword}
use sp_rtrace.Proto.Types.{
  module_info, memory_map, context_registry, function_call, backtrace, function_args, process_info,
  heap_info, output_settings, resource_registry, attachment, hs_id,
}
use sp_rtrace.Binary.Data.{Rd, Hshake, Fcall, Resource, modify, set_ftrace}
use sp_rtrace.Binary.Packets.{
  read_context, read_resource, read_mmap, read_pinfo, read_minfo, read_attachment, read_fcall,
  read_ftrace, read_fargs, read_hinfo,
}

-- The trace data with the reader's static variables: `call_index`, `res_index` and `fcall_prev`.
pub record Parser : Type 0 where
  pub rd : Rd
  pub call_index : ℕ
  pub res_index : ℕ → Option ℕ
  pub fcall_prev : Option ℕ

-- `fault`: the code reads past the data, or uses `res_index` out of its 33 elements. `parsed` holds
-- the value that is returned, as the bit pattern of an int.
pub data Outcome : Type 0 where
  incomplete : Outcome
  unknown : Parser → Outcome
  fault : Outcome
  parsed : ℕ → Parser → Outcome

-- The new state, or a fault.
abbrev pub use_value {ℓ} : {A : Type 0} {B : Type ℓ} → Option (A × Bytes) → B → (A → B) → B
use_value none fail f = fail
use_value (some (a, rest)) fail f = f a

abbrev pub res_index_size : ℕ
res_index_size = 33

abbrev forget : Parser → Parser
forget p = record p { fcall_prev = none }

abbrev keep_rd : Parser → Rd → Option Parser
keep_rd p rd = some (record p { rd = rd })

abbrev set_rd : Parser → Rd → Option Parser
set_rd p rd = some (forget (record p { rd = rd }))

unfoldable pub add_resource : Parser → Resource → Option Parser
add_resource p r =
    if not (ltb r.id res_index_size)
    then none
    else some (record p {
      rd = record p.rd { resources = p.rd.resources ++ r ∷ [] };
      res_index = λ i. if i == r.id then some (length p.rd.resources) else p.res_index i;
      fcall_prev = none;
    })

unfoldable pub add_call : Parser → ℕ × Fcall → Option Parser
add_call p (res_type, call) =
    if not (ltb res_type res_index_size)
    then none
    else some (record p {
      rd = record p.rd {
        calls = p.rd.calls ++ record call { res_type = p.res_index res_type } ∷ [];
      };
      call_index = p.call_index + 1;
      fcall_prev = some (length p.rd.calls);
    })

-- A backtrace belongs to the call packet in front of it.
unfoldable pub add_trace : Parser → List ℕ → Option Parser
add_trace p frames = elim p.fcall_prev [
  | none ↦ some (forget p)
  | some call ↦ set_rd p (set_ftrace p.rd call frames)
]

unfoldable pub add_args : Parser → Bytes → Option Parser
add_args p d = elim p.fcall_prev [
  | none ↦ some p
  | some call ↦ use_value (read_fargs d) none λ args.
      keep_rd p
        (record p.rd { calls = modify (λ c. record c { args = some args }) p.rd.calls call })
]

-- The switch over the type; the outer `none` is an unknown packet, the inner one a fault.
unfoldable pub dispatch : ℕ → Parser → Bytes → Option (Option Parser)
dispatch type p d =
    let rd = p.rd in
    if type == memory_map
    then some
        (use_value (read_mmap d) none λ m. set_rd p (record rd { mmaps = rd.mmaps ++ m ∷ [] }))
    else if type == context_registry
    then some (
        use_value (read_context d) none
          λ c. set_rd p (record rd { contexts = rd.contexts ++ c ∷ [] }))
    else if type == resource_registry
    then some (use_value (read_resource rd.hshake d) none (add_resource p))
    else if type == function_call
    then some (use_value (read_fcall p.call_index d) none (add_call p))
    else if type == backtrace
    then some (use_value (read_ftrace d) none (add_trace p))
    else if type == function_args
    then some (add_args p d)
    else if type == process_info
    then some (use_value (read_pinfo rd.hshake d) none λ i. set_rd p (record rd { pinfo = some i }))
    else if type == module_info
    then some
        (use_value (read_minfo d) none λ m. set_rd p (record rd { minfo = rd.minfo ++ m ∷ [] }))
    else if type == heap_info
    then some (use_value (read_hinfo d) none λ h. set_rd p (record rd { hinfo = some h }))
    else if type == output_settings
    then some (some p)
    else if type == attachment
    then some (
        use_value (read_attachment d) none
          λ f. keep_rd p (record rd { files = rd.files ++ f ∷ [] }))
    else none

-- Before protocol 2.0 the size stood in front of the type.
unfoldable pub read_header : Hshake → Reader (ℕ × ℕ)
read_header hs d = and_then (read_dword d) λ a r. and_then (read_dword r) λ b rest.
    some ((if ltb hs.vmajor 2 then ((a + 4) % 2 ^ 32, b) else ((b + 8) % 2 ^ 32, a)), rest)

-- A handshake packet in the middle of the data ends the reading (from protocol 2.0 on).
unfoldable pub starts_handshake : Hshake → Bytes → Bool
starts_handshake hs [] = false
starts_handshake hs (b ∷ d) = not (ltb hs.vmajor 2) && b == hs_id

unfoldable pub finish : ℕ → Parser → Option (Option Parser) → Outcome
finish len p none = unknown (forget p)
finish len p (some none) = fault
finish len p (some (some q)) = parsed len q

-- `(int)len > size`
unfoldable pub exceeds : ℕ → ℕ → Bool
exceeds len size = ltb len (2 ^ 31) && ltb size len

unfoldable pub parse_payload : Parser → Bytes → Option ((ℕ × ℕ) × Bytes) → Outcome
parse_payload p d none = fault
parse_payload p d (some ((len, type), rest)) =
    if starts_handshake p.rd.hshake d
    then unknown p
    else if exceeds len (length d)
    then incomplete
    else finish len p (dispatch type p rest)

unfoldable pub read_generic_packet : Parser → Bytes → Outcome
read_generic_packet p d =
    if ltb (length d) 8 then incomplete else parse_payload p d (read_header p.rd.hshake d)
