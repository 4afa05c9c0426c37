-- ===== src/Binary/Loop.antt =====
-- `read_binary_data` of src/rtrace-postproc/parse_binary.c: the handshake, and the loops that take
-- packets from the buffer and refill it.
pub mod Steps
use sp_rtrace.Prelude.{
  ℕ, zero, suc, ◌+◌, ◌*◌, ◌/◌, ◌%◌, ◌^◌, ◌-◌, Bool, true, false, List, [], ◌∷◌, ◌++◌, Option, none,
  some, ◌==◌, ltb, leb, ◌&&◌, ◌||◌, not, if◌then◌else◌, length, drop,
}
use sp_rtrace.Proto.Memory.{Bytes}
use sp_rtrace.Binary.Data.{Rd, Hshake}
use sp_rtrace.Binary.Packets.{read_handshake}
use sp_rtrace.Binary.Generic.{
  Parser, Outcome, incomplete, unknown, fault, parsed, read_generic_packet,
}

-- How the inner loop ends: with the bytes of an incomplete packet, at an unknown packet, or in a
-- fault. Fuel above the number of bytes is never used up.
pub data Progress : Type 0 where
  more : Parser → Bytes → Progress
  stopped : Parser → Progress
  failed : Progress

-- `size <= 0`, of an int
unfoldable pub ends_loop : ℕ → Bool
ends_loop len = len == 0 || leb (2 ^ 31) len

-- PACKET_UNKNOWN, as the bit pattern of an int.
abbrev pub packet_unknown : ℕ
packet_unknown = 2 ^ 32 - 2

unfoldable pub after_packet : (Parser → Bytes → Progress) → Parser → Bytes → Outcome → Progress
after_packet go p d incomplete = more p d
after_packet go p d (unknown q) = stopped q
after_packet go p d fault = failed
after_packet go p d (parsed len q) =
    let next = go q (drop len d) in
    if ends_loop len then (if len == packet_unknown then stopped q else more q d) else next

unfoldable pub parse_packets : ℕ → Parser → Bytes → Progress
parse_packets zero p d = more p d
parse_packets (suc f) p d = after_packet (parse_packets f) p d (read_generic_packet p d)

unfoldable pub parse_buffer : Parser → Bytes → Progress
parse_buffer p d = parse_packets (suc (length d)) p d

-- `finished`: the data is read. `overrun`: a `read` is given more room than the buffer has left.
-- `refused`: the handshake is not acceptable and the program exits.
pub data Ending : Type 0 where
  finished : Parser → Ending
  crashed : Ending
  overrun : Ending
  refused : Ending

abbrev pub buffer_size : ℕ
buffer_size = 4096

-- The `read` behind the buffer's `n` bytes asks for 4095 more.
unfoldable pub overruns : ℕ → Bool
overruns n = ltb (buffer_size * 2) (n + (buffer_size - 1))

-- The end of the inner loop; `go` is the outer loop's next round.
unfoldable pub refill : Progress → (Parser → Bytes → Ending) → Ending
refill (stopped q) go = finished q
refill failed go = crashed
refill (more q rest) go = let next = go q rest in if overruns (length rest) then overrun else next

-- The outer loop. The chunks are what the successive calls of `read` return, until one returns
-- nothing.
unfoldable pub read_chunks : Parser → Bytes → List Bytes → Ending
read_chunks p d [] = refill (parse_buffer p d) (λ q rest. finished q)
read_chunks p d ([] ∷ cs) = refill (parse_buffer p d) (λ q rest. finished q)
read_chunks p d ((b ∷ c) ∷ cs) =
    refill (parse_buffer p d) (λ q rest. read_chunks q (rest ++ b ∷ c) cs)

-- The trace data of `rd_create`.
unfoldable pub empty_rd : Hshake → Rd
empty_rd hs = record {
  calls = [];
  contexts = [];
  ftraces = [];
  mmaps = [];
  hshake = hs;
  pinfo = none;
  minfo = [];
  hinfo = none;
  resources = [];
  files = [];
}

-- The reader behind the handshake packet, which resets the call index.
unfoldable pub initial : Hshake → Parser
initial hs = record { rd = empty_rd hs; call_index = 1; res_index = λ i. none; fcall_prev = none }

unfoldable pub compatible : Hshake → Bool
compatible hs = hs.endianness == 0 && hs.pointer_size == 8

-- `d` is what the first `read` returns, behind the byte that identifies the protocol.
unfoldable pub read_binary_data : Bytes → List Bytes → Ending
read_binary_data [] cs = refused
read_binary_data (data_len ∷ d) cs =
    if leb (length d + 1) data_len then refused else elim (read_handshake d) [
      | none ↦ crashed
      | some (hs, rest) ↦
          let go = read_chunks (initial hs) (drop data_len d) cs in
          if compatible hs then go else refused
    ]
