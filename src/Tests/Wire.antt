-- ===== src/Tests/Wire.antt =====
-- The values of the protocol, the packets and the buffer on concrete bytes.
use sp_rtrace.Proto.Types.{output_settings}
use sp_rtrace.Binary.Framed.{length-framed}
use sp_rtrace.Binary.Loop.{read_chunks, finished}
use sp_rtrace.Binary.Chunks.{Takes, packet, done, reads, read_chunks-reads}
use sp_rtrace.Prelude.{
  ℕ, ◌+◌, ◌≤◌, true, false, none, [], ◌∷◌, ◌++◌, ◌≡◌, refl, some, arith, length,
}
use sp_rtrace.Tests.{ready_pipe, malloc, handshake}
use sp_rtrace.Proto.Memory.{Bytes}
use sp_rtrace.Proto.Encode.{word, dword, string, padding, IsString}
use sp_rtrace.Proto.Read.{read_stringa}
use sp_rtrace.Proto.RoundTrip.{read_stringa-string}
use sp_rtrace.Proto.Types.{module_info}
use sp_rtrace.Tracer.Pipe.{Pipe}
use sp_rtrace.Tracer.Pipe.Stream.{stream, finish, stream-finish}
use sp_rtrace.Tracer.Packet.Emits.{framed, Emits}
use sp_rtrace.Tracer.Events.{Module, Resource, Process, Heap, heap_body}
use sp_rtrace.Binary.Data
use sp_rtrace.Binary.Data.{Rd, set_ftrace}
use sp_rtrace.Binary.Calls.Store.{HasTrace, set_ftrace-HasTrace}
use sp_rtrace.Binary.Packets.{read_hinfo}
use sp_rtrace.Binary.Generic.{Parser, read_generic_packet, dispatch}
use sp_rtrace.Binary.Generic
use sp_rtrace.Binary.Loop.{after_packet, parse_buffer, initial, empty_rd}
use sp_rtrace.Binary.Loop.Steps.{parse_buffer_lem}
use sp_rtrace.Binary.Framed.{read_generic_packet-framed}
use sp_rtrace.Binary.ReadBack.{fcall_of, IsFcall}
use sp_rtrace.Binary.HeapInfo.{misread, read_hinfo-heap_body}

abbrev abc : Bytes
abc = b'a' ∷ b'b' ∷ b'c' ∷ []

string_test : string (some abc) ≡ 6 ∷ 0 ∷ b'a' ∷ b'b' ∷ b'c' ∷ 0 ∷ 0 ∷ 0 ∷ []
unfolding string word padding
string_test = refl

abc-IsString : IsString (some abc)
unfolding IsString
abc-IsString = grind arith

read_stringa-string_example : read_stringa (string (some abc) ++ 7 ∷ []) ≡ some (abc, 7 ∷ [])
read_stringa-string_example = read_stringa-string (some abc) abc-IsString (7 ∷ [])

-- A buffer that the next packet fills beyond the half.
abbrev late_pipe : Pipe
late_pipe = record ready_pipe { head = 4094; locked = true }

stream-finish_example : stream (finish late_pipe abc true) ≡ stream late_pipe ++ abc
stream-finish_example = stream-finish late_pipe abc

abbrev direct_pipe : Pipe
direct_pipe = record ready_pipe { buffering = false; locked = true }

abbrev memory_module : Module
memory_module = record { id = 1; name = some abc; vmajor = 1; vminor = 2 }

abbrev memory : Resource
memory = record { id = 1; type = some abc; desc = some abc; flags = 2 }

abbrev process : Process
process = record { pid = 1234; backtrace_depth = 10; name = some abc }

malloc-IsFcall : IsFcall 5 61007 malloc
unfolding IsString
malloc-IsFcall = record {
  res_type_id = omega arith;
  context = omega arith;
  time = omega arith;
  type = omega arith;
  name = grind arith;
  res_size = omega arith;
  res_id = omega arith;
}

abbrev heap : Heap
heap = record {
  bottom = 4096;
  end = 8192;
  arena = 1;
  ordblks = 2;
  smblks = 3;
  hblks = 4;
  hblkhd = 5;
  usmblks = 6;
  fsmblks = 7;
  uordblks = 8;
  fordblks = 9;
  keepcost = 10;
}

read_hinfo-heap_body_example :
    (bs : Bytes) × Emits (heap_body heap) bs
    × (read_hinfo bs ≡ none)
    × ((x y : ℕ) (rest : Bytes)
        → read_hinfo (bs ++ (dword x ++ (dword y ++ rest))) ≡ some (misread heap x y, rest))
read_hinfo-heap_body_example = read_hinfo-heap_body heap

parse_buffer_lem_example :
    parse_buffer (initial handshake) abc
    ≡ after_packet parse_buffer
        (initial handshake)
        abc
        (read_generic_packet (initial handshake) abc)
parse_buffer_lem_example = parse_buffer_lem (initial handshake) abc

new_handshake : 2 ≤ (initial handshake).rd.hshake.vmajor
unfolding initial empty_rd
new_handshake = omega arith

read_generic_packet-framed_example :
    read_generic_packet (initial handshake) (framed module_info abc ++ 7 ∷ [])
    ≡ Generic.finish
        (length abc + 8)
        (initial handshake)
        (dispatch module_info (initial handshake) (abc ++ 7 ∷ []))
read_generic_packet-framed_example =
    read_generic_packet-framed (initial handshake) module_info abc (7 ∷ []) new_handshake
      (omega arith) (omega arith) (omega arith)

abbrev stored_call : Data.Fcall
stored_call = fcall_of 1 5 61007 malloc

abbrev stored_rd : Rd
stored_rd = record (empty_rd handshake) { calls = stored_call ∷ [] }

set_ftrace-HasTrace_example :
    HasTrace stored_rd [] stored_call (4096 ∷ []) (set_ftrace stored_rd 0 (4096 ∷ []))
set_ftrace-HasTrace_example = set_ftrace-HasTrace stored_rd [] stored_call (4096 ∷ []) refl

settings_taken : Takes (initial handshake) output_settings abc (initial handshake)
unfolding dispatch
settings_taken = record {
  new = new_handshake;
  small = omega arith;
  other = omega arith;
  fits = length-settings;
  run = λ rest. refl;
}
  where
    length-settings : length (framed output_settings abc) ≤ 4096
    length-settings = omega (arith, length-framed output_settings abc)

read_chunks-reads_example :
    read_chunks (initial handshake) [] (reads (2 ∷ 4 ∷ []) (framed output_settings abc ++ []))
    ≡ finished (initial handshake)
read_chunks-reads_example =
    read_chunks-reads [] (2 ∷ 4 ∷ []) (framed output_settings abc ++ [])
      (packet settings_taken done)
