-- ===== src/Tests/Relay.antt =====
-- The small process of the parent module behind a listener.
use sp_rtrace.Prelude.{
  ℕ, ◌+◌, ◌-◌, ◌≤◌, true, false, List, [], ◌∷◌, ◌++◌, ◌≡◌, refl, none, some, All, arith, take, drop,
  length,
}
use sp_rtrace.Proto.Encode.{word, dword, qword, string, padding, IsString}
use sp_rtrace.Proto.Types.{function_call}
use sp_rtrace.Tests.{ready_pipe, options, calls, events}
use sp_rtrace.Tests.Calls.{arch, calls_chosen, events-IsEvent, events_fit}
use sp_rtrace.Tracer.Pipe.{Pipe, flush, reset}
use sp_rtrace.Tracer.Pipe.Stream.{IsReady}
use sp_rtrace.Tracer.Packet.Emits.{packets, framed}
use sp_rtrace.Tracer.Handshake.Stored.{handshake_size, handshake_bytes}
use sp_rtrace.Tracer.Events.Encoded.{module_bytes, resource_bytes, settings_bytes, process_bytes}
use sp_rtrace.Tracer.Initial.{Initial, write_initial_data, first_packets, registered, IsSmall}
use sp_rtrace.Tracer.Initial.Written.{write_initial_data-written}
use sp_rtrace.Tracer.Call.Sent.{trace_all}
use sp_rtrace.Rtrace.Listener.{Listener, System}
use sp_rtrace.Rtrace.Listener.Maps.{Line}
use sp_rtrace.Rtrace.Listener.Buffered.{IsOpen}
use sp_rtrace.Rtrace.Listener.Forward.{is_plain, process_packets-plain}
use sp_rtrace.Rtrace.Listener.Loop.{got, returns_0, process_data, process_packets, after_move}
use sp_rtrace.Rtrace.Listener.Passing.{arrivals}
use sp_rtrace.Rtrace.Listener.Scan.{FitsLine}
use sp_rtrace.Rtrace.Listener.Session.{
  session_bytes, relayed_bytes, process_data-relayed_bytes, IsSession,
}
use sp_rtrace.Binary.Generic.{Parser}
use sp_rtrace.Binary.Loop.{finished}
use sp_rtrace.Binary.Start.{read_process}
use sp_rtrace.Binary.Calls.View.{view_of}
use sp_rtrace.Binary.Calls.Sequence.{shown_all}
use sp_rtrace.EndToEnd.Announced.{index_from}
use sp_rtrace.EndToEnd.Session.{
  session_of, first_packets-IsFirst, session_of-IsSession, handshake_bytes-IsHandshake,
}
use sp_rtrace.EndToEnd.Shown.{IsInitial, IsLine}
use sp_rtrace.EndToEnd.Relay.{traced_calls_pass_listener}

-- Its output goes to a file in the directory /tmp.
abbrev first_data : Initial
first_data = record {
  arch = arch;
  output_dir = some (b'/' ∷ b't' ∷ b'm' ∷ b'p' ∷ []);
  postproc = none;
  process = record { pid = 77; backtrace_depth = 2; name = some (b'a' ∷ []) };
  def_module = record {
    id = 0;
    name = some (b'm' ∷ b'a' ∷ b'i' ∷ b'n' ∷ []);
    vmajor = 1;
    vminor = 0;
  };
  modules = record { id = 1; name = some (b'm' ∷ b'e' ∷ b'm' ∷ []); vmajor = 1; vminor = 0 } ∷ [];
  resources = record { id = 1; type = some (b'm' ∷ []); desc = some (b'd' ∷ []); flags = 0 } ∷ [];
}

announced_small : All IsSmall (first_packets first_data)
unfolding first_packets registered settings_bytes process_bytes module_bytes resource_bytes string
    word dword padding
announced_small =
    (omega arith, (omega arith, (omega arith, (omega arith, (omega arith, (omega arith, tt))))))

first_data-IsInitial : IsInitial first_data
unfolding IsString
first_data-IsInitial = record {
  arch = grind arith;
  short = omega arith;
  output_dir = grind arith;
  postproc = tt;
  process = record { pid = omega arith; backtrace_depth = omega arith; name = grind arith };
  def_module = record {
    id = omega arith;
    vmajor = omega arith;
    vminor = omega arith;
    name = grind arith;
  };
  modules = (
    record { id = omega arith; vmajor = omega arith; vminor = omega arith; name = grind arith },
    tt,
  );
  resources = (
    (
      record { id = omega arith; flags = omega arith; type = grind arith; desc = grind arith },
      omega arith,
    ),
    tt,
  );
  small = announced_small;
}

-- Two executable mappings, one of them twice, and one that is not executable.
abbrev maps_lines : List Line
maps_lines =
    record {
      from = 4096;
      to = 8192;
      rights = b'r' ∷ b'-' ∷ b'x' ∷ b'p' ∷ [];
      text = b'a' ∷ 10 ∷ [];
    }
    ∷ record {
      from = 8192;
      to = 9000;
      rights = b'r' ∷ b'w' ∷ b'-' ∷ b'p' ∷ [];
      text = b'a' ∷ 10 ∷ [];
    }
    ∷ record {
      from = 4096;
      to = 8192;
      rights = b'r' ∷ b'-' ∷ b'x' ∷ b'p' ∷ [];
      text = b'a' ∷ 10 ∷ [];
    }
    ∷ record {
      from = 16384;
      to = 20480;
      rights = b'r' ∷ b'-' ∷ b'x' ∷ b'p' ∷ [];
      text = b'c' ∷ 10 ∷ [];
    }
    ∷ []

abbrev around : ℕ → System
around n = record {
  answer = true;
  connect = λ dir post. 5;
  tv_sec = 1000 + n;
  tv_usec = 7;
  maps = λ pid. maps_lines;
}

abbrev listener : Listener
listener = record {
  fd_out = 0;
  output_buffer = [];
  hs_buffer = [];
  s_mmaps = [];
  output_dir = none;
  postproc = none;
  disable_packet_buffering = false;
  pid = 0;
  written = [];
}

lines-IsLine : All IsLine maps_lines
unfolding string word dword qword padding IsString
lines-IsLine = (
  (grind arith, omega arith),
  ((grind arith, omega arith), ((grind arith, omega arith), ((grind arith, omega arith), tt))),
)

-- The listener reads three bytes behind the handshake, then 40, then the rest.
traced_calls_pass_listener_example :
    (t : Pipe) × (u : Pipe) × (v : Listener) × (q : Parser) × (write_initial_data first_data true
        ready_pipe
      ≡ some t)
    × (trace_all options calls t ≡ some u)
    × (process_data around
          (got (take (handshake_size arch + 3) (flush true u).written))
          (arrivals (39 ∷ []) (drop (handshake_size arch + 3) (flush true u).written))
          listener
        ≡ returns_0 v)
    × (read_process (handshake_size arch - 1 + 5) (60 ∷ []) v.written ≡ finished q)
    × (view_of q.rd ≡ shown_all (index_from 0 (λ i. none) first_data.resources) 1 events)
traced_calls_pass_listener_example =
    traced_calls_pass_listener first_data options calls events ready_pipe around listener 3 5
      (39 ∷ []) (60 ∷ []) first_data-IsInitial calls_chosen events-IsEvent refl refl refl
      (λ i. refl) refl refl (omega arith) lines-IsLine

write_initial_data-written_example :
    (t : Pipe) × (write_initial_data first_data true ready_pipe ≡ some t)
    × (t.written
        ≡ [] ++ (handshake_bytes (reset ready_pipe) 2 0 arch ++ packets (first_packets first_data)))
    × (t.head ≡ 0)
    × IsReady t
    × (t.enable ≡ true)
write_initial_data-written_example =
    write_initial_data-written first_data ready_pipe refl refl (omega arith) announced_small

lines-FitsLine : All FitsLine maps_lines
unfolding string word dword qword padding
lines-FitsLine = (omega arith, (omega arith, (omega arith, (omega arith, tt))))

first_data-IsSession : IsSession (session_of first_data events)
unfolding IsString
first_data-IsSession =
    session_of-IsSession first_data events (first_packets-IsFirst first_data announced_small)
      (grind arith) tt events_fit

process_data-relayed_bytes_example :
    (t : Listener) × (process_data around
        (got (
          handshake_bytes ready_pipe 2 0 arch
          ++ take 3 (session_bytes (session_of first_data events))))
        (arrivals (39 ∷ []) (drop 3 (session_bytes (session_of first_data events))))
        listener
      ≡ returns_0 t)
    × (t.written
        ≡ []
          ++ (handshake_bytes ready_pipe 2 0 arch
              ++ relayed_bytes (around 1) maps_lines (session_of first_data events)))
    × (t.output_buffer ≡ [])
process_data-relayed_bytes_example =
    process_data-relayed_bytes around (λ i. refl) listener (handshake_bytes ready_pipe 2 0 arch)
      (session_of first_data events) 3 (39 ∷ []) refl (omega arith)
      (handshake_bytes-IsHandshake ready_pipe arch (omega arith)) first_data-IsSession
      lines-FitsLine

abbrev open_listener : Listener
open_listener = record listener { fd_out = 5; output_buffer = 1 ∷ 2 ∷ [] }

small_plain : is_plain function_call ≡ true
unfolding is_plain
small_plain = refl

fits_plain : length (framed function_call (1 ∷ 2 ∷ 3 ∷ [])) ≤ 4096
unfolding dword
fits_plain = omega arith

false_direct : {A : Type 0} → false ≡ true → A
false_direct h = absurd cc

open_listener-IsOpen : IsOpen open_listener
open_listener-IsOpen = record {
  connected = omega arith;
  below = omega arith;
  direct = λ e. false_direct e;
}

process_packets-plain_example :
    (t : Listener) × (process_packets around 0 [] []
        (arrivals (4 ∷ []) (packets ((function_call, 1 ∷ 2 ∷ 3 ∷ []) ∷ [])))
        open_listener
      ≡ returns_0 t)
    × (t.written ≡ [] ++ (1 ∷ 2 ∷ []) ++ packets ((function_call, 1 ∷ 2 ∷ 3 ∷ []) ∷ []))
    × (t.output_buffer ≡ [])
process_packets-plain_example =
    process_packets-plain around open_listener [] (4 ∷ []) ((function_call, 1 ∷ 2 ∷ 3 ∷ []) ∷ []) 0
      (λ i. refl) open_listener-IsOpen
      (record { plain = small_plain; small = omega arith; fits = fits_plain }, tt)

interrupted_test : after_move (1 ∷ []) (2 ∷ 3 ∷ []) ≡ 3 ∷ 3 ∷ []
unfolding after_move
interrupted_test = refl
