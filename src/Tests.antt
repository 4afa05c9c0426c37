-- ===== src/Tests.antt =====
-- Examples: a small process, its packets, and each theorem where its conditions hold.
pub mod Wire
pub mod Calls
pub mod Registry
pub mod Memory
pub mod File
pub mod Lists
pub mod Emulated
pub mod Relay
pub mod Select
pub mod Mmaps
pub mod Shmposix
pub mod Shmsysv
use sp_rtrace.Prelude.{ℕ, true, false, List, [], ◌∷◌, none, some}
use sp_rtrace.Proto.Memory.{Bytes}
use sp_rtrace.Tracer.Pipe.{Pipe}
use sp_rtrace.Tracer.Call
use sp_rtrace.Tracer.Call.{Farg, Options, Outside}
use sp_rtrace.Tracer.Call.Sent.{Traced}
use sp_rtrace.Tracer.Call.Encoded.{Event}
use sp_rtrace.Binary.Data.{Hshake}

abbrev pub ready_pipe : Pipe
ready_pipe = record {
  memory = λ a. 0;
  head = 0;
  locked = false;
  enable = true;
  tracing = true;
  buffering = true;
  fd = 3;
  written = [];
}

-- Depth 2, timestamps, and a filter that lets every type and size through.
abbrev pub options : Options
options = record {
  backtrace_depth = 2;
  enable_timestamps = true;
  filter = record { type = 3; size_set = none };
}

abbrev pub outside : Outside
outside = record {
  frames = λ depth. 11 ∷ 12 ∷ 13 ∷ 4096 ∷ 4100 ∷ 4104 ∷ [];
  call_context = 5;
  clock = some (61, 7000000);
  backtrace_lock = false;
}

-- `malloc(16)` that returned 4660, with the argument `size` = `16`.
abbrev pub malloc : Call.Fcall
malloc = record {
  type = 2;
  name = some (b'm' ∷ b'a' ∷ b'l' ∷ b'l' ∷ b'o' ∷ b'c' ∷ []);
  res_type_id = 1;
  res_id = 4660;
  res_size = 16;
}

abbrev pub size_arg : Farg
size_arg = record { name = b's' ∷ b'i' ∷ b'z' ∷ b'e' ∷ []; value = some (b'1' ∷ b'6' ∷ []) }

abbrev pub free : Call.Fcall
free = record {
  type = 1;
  name = some (b'f' ∷ b'r' ∷ b'e' ∷ b'e' ∷ []);
  res_type_id = 1;
  res_id = 4660;
  res_size = 0;
}

-- The first call takes its backtrace itself, the second brings one of its own.
abbrev pub calls : List Traced
calls =
    record { out = outside; call = malloc; trace = none; args = some (size_arg ∷ []) }
    ∷ record { out = outside; call = free; trace = some (4096 ∷ 4100 ∷ []); args = none }
    ∷ []

abbrev pub events : List Event
events =
    record {
      context = 5;
      time = 61007;
      call = malloc;
      args = some (size_arg ∷ []);
      frames = 4096 ∷ 4100 ∷ [];
    }
    ∷ record { context = 5; time = 61007; call = free; args = none; frames = 4096 ∷ 4100 ∷ [] }
    ∷ []

abbrev pub handshake : Hshake
handshake = record { vmajor = 2; vminor = 0; arch = b'x' ∷ []; endianness = 0; pointer_size = 8 }
