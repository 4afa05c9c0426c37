-- ===== src/Proto/Types.antt =====
-- The packet types of src/common/sp_rtrace_proto.h.
use sp_rtrace.Prelude.{ℕ, ◌+◌, ◌*◌, ◌^◌}

-- SP_RTRACE_PROTO_PACKET_TYPE
abbrev pub packet_type : ℕ → ℕ → ℕ → ℕ → ℕ
packet_type b₁ b₂ b₃ b₄ = b₁ + b₂ * 2 ^ 8 + b₃ * 2 ^ 16 + b₄ * 2 ^ 24

abbrev pub module_info : ℕ
module_info = packet_type b'M' b'I' b'N' b'F'

abbrev pub memory_map : ℕ
memory_map = packet_type b'M' b'M' b'A' b'P'

abbrev pub context_registry : ℕ
context_registry = packet_type b'C' b'T' b'X' b'R'

abbrev pub function_call : ℕ
function_call = packet_type b'C' b'A' b'L' b'L'

abbrev pub backtrace : ℕ
backtrace = packet_type b'B' b'T' b'R' b'C'

abbrev pub function_args : ℕ
function_args = packet_type b'A' b'R' b'G' b'S'

abbrev pub process_info : ℕ
process_info = packet_type b'P' b'I' b'N' b'F'

abbrev pub new_library : ℕ
new_library = packet_type b'N' b'L' b'I' b'B'

abbrev pub heap_info : ℕ
heap_info = packet_type b'H' b'I' b'N' b'F'

abbrev pub output_settings : ℕ
output_settings = packet_type b'O' b'C' b'F' b'G'

abbrev pub resource_registry : ℕ
resource_registry = packet_type b'R' b'E' b'S' b'R'

abbrev pub attachment : ℕ
attachment = packet_type b'F' b'I' b'L' b'E'

-- SP_RTRACE_PROTO_HS_ID
abbrev pub hs_id : ℕ
hs_id = 0xF0
