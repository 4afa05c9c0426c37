-- ===== src/EndToEnd/Session.antt =====
-- The packets of a traced process as the listener meets them.
use sp_rtrace.Prelude.{
  ap₂, append-nil, ◌+◌, ◌-◌, ◌%◌, ◌≤◌, ◌<◌, true, List, [], ◌∷◌, ◌++◌, ◌≡◌, refl, sym, ap, ◌∙◌,
  subst, Option, none, some, All, All-append, length, length-append, append_assoc, arith, map, drop,
}
use sp_rtrace.Proto.Memory.{Bytes}
use sp_rtrace.Proto.Encode.{string, IsString}
use sp_rtrace.Proto.Types.{
  module_info, resource_registry, output_settings, process_info, new_library, hs_id, function_call,
  function_args, backtrace,
}
use sp_rtrace.Tracer.Pipe.{Pipe}
use sp_rtrace.Tracer.Packet.Emits.{framed, Framed, packets, packets-append}
use sp_rtrace.Tracer.Handshake.{align_size}
use sp_rtrace.Tracer.Handshake.Stored.{handshake_size, handshake_bytes, length-handshake_bytes}
use sp_rtrace.Tracer.Events.{Module, Resource}
use sp_rtrace.Tracer.Events.Encoded.{settings_bytes, process_bytes}
use sp_rtrace.Tracer.Initial.{
  Initial, first_packets, registered, all_libraries, IsSmall, module_packet, resource_packet,
  library_packet,
}
use sp_rtrace.Tracer.Call.{Farg}
use sp_rtrace.Tracer.Call.Encoded.{
  Event, event_bytes, events_bytes, call_bytes, args_bytes, trace_bytes, args_packet_bytes,
  packets_bytes,
}
use sp_rtrace.Rtrace.Listener.Forward.{IsPlain, is_plain}
use sp_rtrace.Rtrace.Listener.Session.{Session, IsSession, IsHandshake, handshake, session_bytes}

abbrev args_packets : Option (List Farg) → List Framed
args_packets none = []
args_packets (some args) = (function_args, args_bytes args) ∷ []

-- The packets of events, one by one.
unfoldable pub event_packets : List Event → List Framed
event_packets [] = []
event_packets (e ∷ es) =
    (function_call, call_bytes e.context e.time e.call)
    ∷ (args_packets e.args ++ ((backtrace, trace_bytes e.frames) ∷ event_packets es))

args_packets-bytes :
    (args : Option (List Farg)) → packets (args_packets args) ≡ args_packet_bytes args
unfolding packets args_packet_bytes
args_packets-bytes none = refl
args_packets-bytes (some args) = append-nil (framed function_args (args_bytes args))

pub event_packets-bytes : (es : List Event) → packets (event_packets es) ≡ events_bytes es
unfolding packets event_packets events_bytes packets_bytes
event_packets-bytes [] = refl
event_packets-bytes (e ∷ es) =
    let call = framed function_call (call_bytes e.context e.time e.call) in
    let trace = framed backtrace (trace_bytes e.frames) in
    ap (λ l. call ++ l)
      (packets-append (args_packets e.args) ((backtrace, trace_bytes e.frames) ∷ event_packets es)
        ∙ ap₂ (λ a b. a ++ (trace ++ b)) (args_packets-bytes e.args) (event_packets-bytes es))
    ∙ sym (
        append_assoc (call ++ args_packet_bytes e.args) trace (events_bytes es)
        ∙ append_assoc call (args_packet_bytes e.args) (trace ++ events_bytes es))

call_plain : is_plain function_call ≡ true
unfolding is_plain
call_plain = refl

args_plain : is_plain function_args ≡ true
unfolding is_plain
args_plain = refl

trace_plain : is_plain backtrace ≡ true
unfolding is_plain
trace_plain = refl

args_IsPlain :
    (args : Option (List Farg))
    → length (args_packet_bytes args) ≤ 4096
    → All IsPlain (args_packets args)
unfolding args_packet_bytes
args_IsPlain none h = tt
args_IsPlain (some args) h = (record { plain = args_plain; small = omega arith; fits = h }, tt)

pub event_packets-IsPlain :
    (es : List Event) → All (λ e. length (event_bytes e) ≤ 4096) es → All IsPlain (event_packets es)
unfolding event_packets packets_bytes
event_packets-IsPlain [] h = tt
event_packets-IsPlain (e ∷ es) h =
    let call = framed function_call (call_bytes e.context e.time e.call) in
    let trace = framed backtrace (trace_bytes e.frames) in
    let fits = h.0 in
    let l : length (event_bytes e)
        ≡ length call + length (args_packet_bytes e.args) + length trace =
      omega (
        arith,
        length-append (call ++ args_packet_bytes e.args) trace,
        length-append call (args_packet_bytes e.args),
      ) in
    (
      record { plain = call_plain; small = omega arith; fits = omega (arith, l, fits) },
      All-append IsPlain (args_packets e.args) _ (args_IsPlain e.args (omega (arith, l, fits))) (
        record { plain = trace_plain; small = omega arith; fits = omega (arith, l, fits) },
        event_packets-IsPlain es h.1,
      ),
    )

module_plain : is_plain module_info ≡ true
unfolding is_plain
module_plain = refl

resource_plain : is_plain resource_registry ≡ true
unfolding is_plain
resource_plain = refl

modules_IsPlain :
    (ms : List Module) → All IsSmall (map module_packet ms) → All IsPlain (map module_packet ms)
modules_IsPlain [] h = tt
modules_IsPlain (m ∷ ms) h =
    (record { plain = module_plain; small = omega arith; fits = h.0 }, modules_IsPlain ms h.1)

resources_IsPlain :
    (rs : List Resource)
    → All IsSmall (map resource_packet rs)
    → All IsPlain (map resource_packet rs)
resources_IsPlain [] h = tt
resources_IsPlain (r ∷ rs) h =
    (record { plain = resource_plain; small = omega arith; fits = h.0 }, resources_IsPlain rs h.1)

pub All-split {ℓ κ} :
    {A : Type ℓ} (P : A → Type κ) (xs ys : List A) → All P (xs ++ ys) → All P xs × All P ys
All-split P [] ys h = (tt, h)
All-split P (x ∷ xs) ys h = let (front, back) = All-split P xs ys h.1 in ((h.0, front), back)

-- The parts of `first_packets`.
pub record IsFirst (d : Initial) : Type 0 where
  pub settings : IsSmall (output_settings, settings_bytes d.output_dir d.postproc)
  pub process : IsSmall (process_info, process_bytes d.process)
  pub def_module : IsSmall (module_packet d.def_module)
  pub modules : All IsSmall (map module_packet d.modules)
  pub resources : All IsSmall (map resource_packet d.resources)
  pub library : IsSmall library_packet

pub first_packets-IsFirst : (d : Initial) → All IsSmall (first_packets d) → IsFirst d
unfolding first_packets registered
first_packets-IsFirst d h =
    let (modules, rest) =
      All-split IsSmall (map module_packet d.modules ++ map resource_packet d.resources)
        (library_packet ∷ []) h.1.1.1 in
    let (a, b) =
      All-split IsSmall (map module_packet d.modules) (map resource_packet d.resources) modules in
    record {
      settings = h.0;
      process = h.1.0;
      def_module = h.1.1.0;
      modules = a;
      resources = b;
      library = rest.0;
    }

-- The process with its calls.
abbrev pub session_of : Initial → List Event → Session
session_of d es = record {
  output_dir = d.output_dir;
  postproc = d.postproc;
  process = d.process;
  before = registered d;
  library = all_libraries;
  later = event_packets es;
}

all_libraries-IsString : IsString all_libraries
unfolding IsString
all_libraries-IsString = (((omega arith, omega arith), tt), omega arith)

pub session_of-IsSession :
    (d : Initial) (es : List Event)
    → IsFirst d
    → IsString d.output_dir
    → IsString d.postproc
    → All (λ e. length (event_bytes e) ≤ 4096) es
    → IsSession (session_of d es)
unfolding registered
session_of-IsSession d es h dir post fits = record {
  output_dir = dir;
  postproc = post;
  library = all_libraries-IsString;
  settings_fits = h.settings;
  process_fits = h.process;
  library_fits = h.library;
  before = (
    record { plain = module_plain; small = omega arith; fits = h.def_module },
    All-append IsPlain (map module_packet d.modules) (map resource_packet d.resources)
        (modules_IsPlain d.modules h.modules) (resources_IsPlain d.resources h.resources),
  );
  later = event_packets-IsPlain es fits;
}

regroup : (a b c d e : Bytes) → (a ++ (b ++ (c ++ d))) ++ e ≡ a ++ (b ++ (c ++ (d ++ e)))
regroup a b c d e = simp append_assoc

pub session_bytes-session_of :
    (d : Initial) (es : List Event)
    → session_bytes (session_of d es) ≡ packets (first_packets d) ++ events_bytes es
unfolding session_bytes first_packets packets
session_bytes-session_of d es =
    let settings = framed output_settings (settings_bytes d.output_dir d.postproc) in
    let process = framed process_info (process_bytes d.process) in
    let library = framed new_library (string all_libraries) in
    ap (λ l. settings ++ (process ++ (packets (registered d) ++ (library ++ l))))
      (event_packets-bytes es)
    ∙ sym (
        ap (λ l. (settings ++ (process ++ l)) ++ events_bytes es)
          (packets-append (registered d) (library_packet ∷ [])
            ∙ ap (λ l. packets (registered d) ++ l) (append-nil library))
        ∙ regroup settings process (packets (registered d)) library (events_bytes es))

pub handshake_bytes-IsHandshake :
    (s : Pipe) (arch : Bytes) → length arch < 250 → IsHandshake (handshake_bytes s 2 0 arch)
unfolding align_size
handshake_bytes-IsHandshake s arch short =
    let rest = drop 2 (handshake_bytes s 2 0 arch) in
    let size = handshake_size arch in
    let l : length rest ≡ size - 2 = omega (arith, length-handshake_bytes s 2 0 arch) in
    let e : length rest ≡ (size - 2) % 256 = omega (arith, l, short) in
    subst (λ n. IsHandshake (hs_id ∷ n ∷ rest)) e (handshake rest (omega (arith, l, short)))
