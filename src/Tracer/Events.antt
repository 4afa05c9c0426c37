-- ===== src/Tracer/Events.antt =====
-- The packets of src/modules/sp_rtrace_main.c that announce modules, resource types, contexts,
-- libraries, the output settings, the process and the heap.
pub mod Encoded
use sp_rtrace.Prelude.{
  ℕ, zero, suc, ◌+◌, ◌*◌, ◌^◌, Bool, true, false, List, [], ◌∷◌, Option, none, some, not,
  if◌then◌else◌, ◌==◌,
}
use sp_rtrace.Proto.Memory.{Bytes}
use sp_rtrace.Proto.Write.{write_dword, write_string}
use sp_rtrace.Proto.Types.{
  module_info, resource_registry, context_registry, output_settings, process_info, heap_info,
  new_library,
}
use sp_rtrace.Tracer.Pipe.{Pipe}
use sp_rtrace.Tracer.Packet.{Cursor, put_all, packet, send}

-- Text arguments are null pointers or strings.
pub record Module : Type 0 where
  pub id : ℕ
  pub name : Option Bytes
  pub vmajor : ℕ
  pub vminor : ℕ

pub record Resource : Type 0 where
  pub id : ℕ
  pub type : Option Bytes
  pub desc : Option Bytes
  pub flags : ℕ

pub record Context : Type 0 where
  pub id : ℕ
  pub name : Option Bytes

pub record Process : Type 0 where
  pub pid : ℕ
  pub backtrace_depth : ℕ
  pub name : Option Bytes

-- `heap_bottom`, `heap_end()` and the fields of `struct mallinfo` that are written.
pub record Heap : Type 0 where
  pub bottom : ℕ
  pub end : ℕ
  pub arena : ℕ
  pub ordblks : ℕ
  pub smblks : ℕ
  pub hblks : ℕ
  pub hblkhd : ℕ
  pub usmblks : ℕ
  pub fsmblks : ℕ
  pub uordblks : ℕ
  pub fordblks : ℕ
  pub keepcost : ℕ

unfoldable pub module_body : Module → Cursor → Cursor
module_body m =
    put_all
      (write_dword m.id ∷ write_dword (m.vmajor * 2 ^ 16 + m.vminor) ∷ write_string m.name ∷ [])

unfoldable pub resource_body : Resource → Cursor → Cursor
resource_body r =
    put_all
      (write_dword r.id ∷ write_dword r.flags ∷ write_string r.type ∷ write_string r.desc ∷ [])

unfoldable pub context_body : Context → Cursor → Cursor
context_body c = put_all (write_dword c.id ∷ write_string c.name ∷ [])

unfoldable pub settings_body : Option Bytes → Option Bytes → Cursor → Cursor
settings_body output_dir postproc = put_all (write_string output_dir ∷ write_string postproc ∷ [])

unfoldable pub process_body : Process → Cursor → Cursor
process_body p = put_all (
    write_dword p.pid
    ∷ write_dword 0
    ∷ write_dword 0
    ∷ write_dword p.backtrace_depth
    ∷ write_string p.name
    ∷ [])

unfoldable pub heap_body : Heap → Cursor → Cursor
heap_body h = put_all (
    write_dword h.bottom
    ∷ write_dword h.end
    ∷ write_dword h.arena
    ∷ write_dword h.ordblks
    ∷ write_dword h.smblks
    ∷ write_dword h.hblks
    ∷ write_dword h.hblkhd
    ∷ write_dword h.usmblks
    ∷ write_dword h.fsmblks
    ∷ write_dword h.uordblks
    ∷ write_dword h.fordblks
    ∷ write_dword h.keepcost
    ∷ [])

unfoldable pub library_body : Option Bytes → Cursor → Cursor
library_body library = put_all (write_string library ∷ [])

-- `if (!sp_rtrace_options->enable) return 0;`
unfoldable pub send_enabled : (Cursor → Cursor) → Bool → Pipe → Option (Pipe × ℕ)
send_enabled body answer s = if not s.enable then some (s, 0) else send body answer s

unfoldable pub write_module_info : Module → Bool → Pipe → Option (Pipe × ℕ)
write_module_info m = send_enabled (packet module_info (module_body m))

unfoldable pub write_resource_registry : Resource → Bool → Pipe → Option (Pipe × ℕ)
write_resource_registry r = send_enabled (packet resource_registry (resource_body r))

unfoldable pub write_context_registry : Context → Bool → Pipe → Option (Pipe × ℕ)
write_context_registry c = send_enabled (packet context_registry (context_body c))

unfoldable pub write_output_settings : Option Bytes → Option Bytes → Bool → Pipe → Option (Pipe × ℕ)
write_output_settings output_dir postproc =
    send (packet output_settings (settings_body output_dir postproc))

unfoldable pub write_process_info : Process → Bool → Pipe → Option (Pipe × ℕ)
write_process_info p = send (packet process_info (process_body p))

-- Nothing is written before `sp_rtrace_store_heap_info` has filled `heap_info`.
unfoldable pub write_heap_info : Heap → Bool → Pipe → Option (Pipe × ℕ)
write_heap_info h answer s =
    if h.arena == 0 then some (s, 0) else send (packet heap_info (heap_body h)) answer s

unfoldable pub write_new_library : Option Bytes → Bool → Pipe → Option (Pipe × ℕ)
write_new_library library = send (packet new_library (library_body library))
