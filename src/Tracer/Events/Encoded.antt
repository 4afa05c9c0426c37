-- ===== src/Tracer/Events/Encoded.antt =====
-- The bytes of each packet's fields.
use sp_rtrace.Prelude.{◌+◌, ◌*◌, ◌^◌, ◌++◌, Option}
use sp_rtrace.Proto.Memory.{Bytes}
use sp_rtrace.Proto.Encode.{dword, string}
use sp_rtrace.Proto.Write.{write_dword-Writes, write_string-Writes}
use sp_rtrace.Tracer.Packet.Emits.{Emits, one, more, put_all-Emits}
use sp_rtrace.Tracer.Events.{
  Module, Resource, Context, Process, Heap, module_body, resource_body, context_body, settings_body,
  process_body, heap_body, library_body,
}

ruleset writes = (one, more, write_dword-Writes, write_string-Writes)

unfoldable pub module_bytes : Module → Bytes
module_bytes m = dword m.id ++ (dword (m.vmajor * 2 ^ 16 + m.vminor) ++ string m.name)

unfoldable pub resource_bytes : Resource → Bytes
resource_bytes r = dword r.id ++ (dword r.flags ++ (string r.type ++ string r.desc))

unfoldable pub context_bytes : Context → Bytes
context_bytes c = dword c.id ++ string c.name

unfoldable pub settings_bytes : Option Bytes → Option Bytes → Bytes
settings_bytes output_dir postproc = string output_dir ++ string postproc

unfoldable pub process_bytes : Process → Bytes
process_bytes p =
    dword p.pid ++ (dword 0 ++ (dword 0 ++ (dword p.backtrace_depth ++ string p.name)))

unfoldable pub heap_bytes : Heap → Bytes
heap_bytes h =
    dword h.bottom
    ++ (dword h.end
        ++ (dword h.arena
            ++ (dword h.ordblks
                ++ (dword h.smblks
                    ++ (dword h.hblks
                        ++ (dword h.hblkhd
                            ++ (dword h.usmblks
                                ++ (dword h.fsmblks
                                    ++ (dword h.uordblks
                                        ++ (dword h.fordblks ++ dword h.keepcost))))))))))

pub module_body-Emits : (m : Module) → Emits (module_body m) (module_bytes m)
unfolding module_body module_bytes
module_body-Emits m = put_all-Emits (search writes)

pub resource_body-Emits : (r : Resource) → Emits (resource_body r) (resource_bytes r)
unfolding resource_body resource_bytes
resource_body-Emits r = put_all-Emits (search writes)

pub context_body-Emits : (c : Context) → Emits (context_body c) (context_bytes c)
unfolding context_body context_bytes
context_body-Emits c = put_all-Emits (search writes)

pub settings_body-Emits :
    (output_dir postproc : Option Bytes)
    → Emits (settings_body output_dir postproc) (settings_bytes output_dir postproc)
unfolding settings_body settings_bytes
settings_body-Emits output_dir postproc = put_all-Emits (search writes)

pub process_body-Emits : (p : Process) → Emits (process_body p) (process_bytes p)
unfolding process_body process_bytes
process_body-Emits p = put_all-Emits (search writes depth 8)

pub heap_body-Emits : (h : Heap) → Emits (heap_body h) (heap_bytes h)
unfolding heap_body heap_bytes
heap_body-Emits h = put_all-Emits (search writes depth 14)

pub library_body-Emits : (library : Option Bytes) → Emits (library_body library) (string library)
unfolding library_body
library_body-Emits library = put_all-Emits (search writes)
