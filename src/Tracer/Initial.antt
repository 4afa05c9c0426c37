-- ===== src/Tracer/Initial.antt =====
-- `write_initial_data` of src/modules/sp_rtrace_main.c: what a traced process sends first.
pub mod Written
use sp_rtrace.Prelude.{
  ℕ, ◌≤◌, ◌<◌, Bool, true, false, List, [], ◌∷◌, ◌++◌, ◌≡◌, refl, sym, ap, ◌∙◌, Option, none, some,
  map, length, arith, append-nil, append_assoc, All, not, if◌then◌else◌, subst,
}
use sp_rtrace.Proto.Memory.{Bytes, slice}
use sp_rtrace.Proto.Encode.{string}
use sp_rtrace.Proto.Types.{
  output_settings, process_info, module_info, resource_registry, new_library,
}
use sp_rtrace.Tracer.Pipe.{Pipe, buffer_size, flush, reset}
use sp_rtrace.Tracer.Pipe.Stream.{
  stream, IsReady, flush-written, finish, stream-finish, finish-IsReady, finish-enable,
}
use sp_rtrace.Tracer.Packet.{Cursor, send}
use sp_rtrace.Tracer.Packet.Emits.{Emits, framed, Framed, packets, packet-Emits}
use sp_rtrace.Tracer.Handshake.{write_handshake, align_size}
use sp_rtrace.Tracer.Handshake.Stored.{
  handshake_size, handshake_bytes, length-handshake_bytes, write_handshake-finish,
}
use sp_rtrace.Tracer.Events.{
  Module, Resource, Process, send_enabled, write_module_info, write_resource_registry,
  write_output_settings, write_process_info, write_new_library,
}
use sp_rtrace.Tracer.Events.Encoded.{
  module_bytes, resource_bytes, settings_bytes, process_bytes, module_body-Emits,
  resource_body-Emits, settings_body-Emits, process_body-Emits, library_body-Emits,
}
use sp_rtrace.Tracer.Call.Sent.{Sends, send-Sends}

-- What the packets tell: `BUILD_ARCH`, the options, the process, and the two registries, with the
-- main module in front of the others.
pub record Initial : Type 0 where
  pub arch : Bytes
  pub output_dir : Option Bytes
  pub postproc : Option Bytes
  pub process : Process
  pub def_module : Module
  pub modules : List Module
  pub resources : List Resource

abbrev pub Operation : Type 0
Operation = Pipe → Option (Pipe × ℕ)

abbrev pub next : Option (Pipe × ℕ) → (Pipe → Option Pipe) → Option Pipe
next none go = none
next (some (s, n)) go = go s

-- Operations one after the other, whose sizes are ignored, and `pipe_buffer_flush`.
unfoldable pub send_all : Bool → List Operation → Pipe → Option Pipe
send_all answer [] s = some (flush answer s)
send_all answer (f ∷ fs) s = next (f s) (send_all answer fs)

-- The library that stands for all.
abbrev pub all_libraries : Option Bytes
all_libraries = some (b'*' ∷ [])

unfoldable pub operations : Bool → Initial → List Operation
operations answer d =
    write_output_settings d.output_dir d.postproc answer
    ∷ write_process_info d.process answer
    ∷ write_module_info d.def_module answer
    ∷ (map (λ m. write_module_info m answer) d.modules
        ++ (map (λ r. write_resource_registry r answer) d.resources
            ++ write_new_library all_libraries answer ∷ []))

unfoldable pub write_initial_data : Initial → Bool → Pipe → Option Pipe
write_initial_data d answer s =
    send_all answer (write_handshake 2 0 d.arch answer ∷ operations answer d) (reset s)

abbrev pub module_packet : Module → Framed
module_packet m = (module_info, module_bytes m)

abbrev pub resource_packet : Resource → Framed
resource_packet r = (resource_registry, resource_bytes r)

abbrev pub library_packet : Framed
library_packet = (new_library, string all_libraries)

-- The modules and the resource types.
unfoldable pub registered : Initial → List Framed
registered d =
    module_packet d.def_module ∷ (map module_packet d.modules ++ map resource_packet d.resources)

unfoldable pub first_packets : Initial → List Framed
first_packets d =
    (output_settings, settings_bytes d.output_dir d.postproc)
    ∷ (process_info, process_bytes d.process)
    ∷ (registered d ++ library_packet ∷ [])

-- The packet fits half of the buffer.
abbrev pub IsSmall : Framed → Type 0
IsSmall p = length (framed p.0 p.1) ≤ buffer_size
