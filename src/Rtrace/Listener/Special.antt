-- ===== src/Rtrace/Listener/Special.antt =====
-- The packets that `process_packet` acts on: output settings, process, library.
use sp_rtrace.Prelude.{
  ℕ, ◌+◌, ◌%◌, ◌^◌, ◌≤◌, ◌<◌, true, false, [], ◌++◌, ◌≡◌, refl, ap, ◌∙◌, Option, some, ltb, length,
  append_assoc, arith, take, drop,
}
use sp_rtrace.Proto.Memory.{Bytes}
use sp_rtrace.Proto.Encode.{dword, string, IsString}
use sp_rtrace.Proto.Types.{output_settings, process_info}
use sp_rtrace.Proto.RoundTrip.{read_dword-dword, text_of}
use sp_rtrace.Tracer.Packet.Emits.{framed}
use sp_rtrace.Binary.Framed.{length-framed}
use sp_rtrace.Tracer.Events.{Process}
use sp_rtrace.Tracer.Events.Encoded.{settings_bytes, process_bytes}
use sp_rtrace.Rtrace.Listener.{
  Listener, System, wrote, write_data, forward, forward_stamped, set_text, with_settings,
  after_settings, read_pid_secs, process_process, stamp, process_type, buffer_size,
}
use sp_rtrace.Rtrace.Listener.Buffered.{
  stream, IsOpen, with_output, write_data-Wrote, forward-Wrote,
}
use sp_rtrace.Rtrace.Listener.Passing.{Passes}
use sp_rtrace.Rtrace.Listener.Strings.{read_settings-string}

-- The listener whose output is connected.
abbrev pub connected : System → Option Bytes → Option Bytes → Listener → Listener
connected out output_dir postproc s =
    let dir = set_text s.output_dir (text_of output_dir) in
    let post = set_text s.postproc (text_of postproc) in
    record s { output_dir = dir; postproc = post; fd_out = out.connect dir post }

-- A packet is taken, `bs` are the new bytes of the output, and `id` is the pid.
pub record Relayed (out : System) (s : Listener) (type id : ℕ) (body bs : Bytes) : Type 0 where
  pub state : Listener
  pub passes : Passes out s type body state
  pub more : stream state ≡ stream s ++ bs
  pub still : IsOpen state
  pub mmaps : state.s_mmaps ≡ s.s_mmaps
  pub pid : state.pid ≡ id

-- A process with the time of day in place of zeros.
abbrev pub stamped_bytes : System → Process → Bytes
stamped_bytes out p =
    dword p.pid
    ++ (dword out.tv_sec ++ (dword out.tv_usec ++ (dword p.backtrace_depth ++ string p.name)))

pub stamped_length :
    (out : System) (p : Process)
    → length (framed process_info (process_bytes p))
      ≡ length (framed process_info (stamped_bytes out p))
unfolding process_bytes dword
stamped_length out p = refl

module _ (out : System) (ok : out.answer ≡ true) where
  settings_type :
      (s t : Listener) (output_dir postproc : Option Bytes) (rest : Bytes)
      → IsString output_dir
      → IsString postproc
      → length (framed output_settings (settings_bytes output_dir postproc)) ≤ buffer_size
      → with_settings out (text_of output_dir) (text_of postproc) s ≡ wrote t
      → let bs = settings_bytes output_dir postproc in
        let ps = framed output_settings bs in
        process_type out output_settings (length ps) (ps ++ rest) (bs ++ rest) s
        ≡ forward out (length ps) (ps ++ rest) t
  unfolding process_type settings_bytes
  settings_type s t output_dir postproc rest h k fits e =
      let bs = string output_dir ++ string postproc in
      let ps = framed output_settings bs in
      rw
        (read_settings-string output_dir postproc h k
          (omega (arith, fits, length-framed output_settings bs)))
        (ap (after_settings out (length ps) (ps ++ rest)) e)

  -- The handshake is written when the output is connected, and then the packet.
  pub settings-Relayed :
      (s : Listener) (output_dir postproc : Option Bytes)
      → s.output_buffer ≡ []
      → 0 < (connected out output_dir postproc s).fd_out
      → length s.hs_buffer ≤ buffer_size
      → IsString output_dir
      → IsString postproc
      → length (framed output_settings (settings_bytes output_dir postproc)) ≤ buffer_size
      → Relayed out s output_settings s.pid
          (settings_bytes output_dir postproc)
          (s.hs_buffer ++ framed output_settings (settings_bytes output_dir postproc))
  unfolding dword
  settings-Relayed s output_dir postproc empty live short h k fits =
      let bs = settings_bytes output_dir postproc in
      let ps = framed output_settings bs in
      let s₁ = connected out output_dir postproc s in
      let ready : IsOpen s₁ = record {
        connected = live;
        below = rw empty (omega arith);
        direct = λ e. empty;
      } in
      let w = write_data-Wrote s₁ s.hs_buffer ready short in
      let s₂ = with_output w.written w.buffer s₁ in
      let v = write_data-Wrote s₂ ps w.still fits in
      let first : with_settings out (text_of output_dir) (text_of postproc) s ≡ wrote s₂ =
        ap (λ b. write_data b s.hs_buffer s₁) ok ∙ w.result in
      record {
        state = with_output v.written v.buffer s₂;
        passes = record {
          small = omega arith;
          fits = fits;
          first = _;
          left = _;
          run = λ rest.
              settings_type s s₂ output_dir postproc rest h k fits first
              ∙ forward-Wrote out s₂ ps rest ok v;
        };
        more = v.more ∙ ap (λ l. l ++ ps) w.more ∙ append_assoc (stream s) s.hs_buffer ps;
        still = v.still;
        mmaps = refl;
        pid = refl;
      }

  stamp_fits :
      (n : ℕ) (d : Bytes)
      → n + 8 ≤ length d
      → stamp n out.tv_sec out.tv_usec d
        ≡ some (take n d ++ (dword out.tv_sec ++ (dword out.tv_usec ++ drop (n + 8) d)))
  unfolding stamp
  stamp_fits n d h =
      let enough : ltb (length d) (n + 8) ≡ false = ground (arith, h) in rw enough refl

  stamp-process :
      (p : Process) (rest : Bytes)
      → stamp 12 out.tv_sec out.tv_usec (framed process_info (process_bytes p) ++ rest)
        ≡ some (framed process_info (stamped_bytes out p) ++ rest)
  unfolding process_bytes dword
  stamp-process p rest = stamp_fits 12 (framed process_info (process_bytes p) ++ rest) (omega arith)

  read_pid_secs-process_bytes :
      (p : Process) (rest : Bytes)
      → let later = dword 0 ++ (dword p.backtrace_depth ++ string p.name) in
        read_pid_secs (process_bytes p ++ rest) ≡ some ((p.pid % 2 ^ 32, 0), later ++ rest)
  unfolding process_bytes
  read_pid_secs-process_bytes p rest =
      let later = dword 0 ++ (dword p.backtrace_depth ++ string p.name) in
      ap read_pid_secs (
        append_assoc (dword p.pid) (dword 0 ++ later) rest
        ∙ ap (λ l. dword p.pid ++ l) (append_assoc (dword 0) later rest))
      ∙ rw (read_dword-dword p.pid, read_dword-dword 0) refl

  process_type-process :
      (s : Listener) (p : Process) (rest : Bytes)
      → let ps = framed process_info (process_bytes p) in
        process_type out process_info (length ps) (ps ++ rest) (process_bytes p ++ rest) s
        ≡ forward out
            (length ps)
            (framed process_info (stamped_bytes out p) ++ rest)
            (record s { pid = p.pid % 2 ^ 32 })
  unfolding process_type
  process_type-process s p rest =
      let ps = framed process_info (process_bytes p) in
      let t = record s { pid = p.pid % 2 ^ 32 } in
      ap (process_process out (length ps) (ps ++ rest) s) (read_pid_secs-process_bytes p rest)
      ∙ ap (λ d. forward_stamped out (length ps) d t) (stamp-process p rest)

  -- A process packet without a time of start gets the time of day.
  pub process-Relayed :
      (s : Listener) (p : Process)
      → IsOpen s
      → length (framed process_info (process_bytes p)) ≤ buffer_size
      → Relayed out s process_info
          (p.pid % 2 ^ 32)
          (process_bytes p)
          (framed process_info (stamped_bytes out p))
  unfolding dword
  process-Relayed s p ready fits =
      let ps = framed process_info (stamped_bytes out p) in
      let t = record s { pid = p.pid % 2 ^ 32 } in
      let still : IsOpen t = record {
        connected = ready.connected;
        below = ready.below;
        direct = ready.direct;
      } in
      let same : length (framed process_info (process_bytes p)) ≡ length ps =
        stamped_length out p in
      let w = write_data-Wrote t ps still (omega (arith, same, fits)) in
      record {
        state = with_output w.written w.buffer t;
        passes = record {
          small = omega arith;
          fits = fits;
          first = _;
          left = _;
          run = λ rest.
              process_type-process s p rest
              ∙ ap (λ n. forward out n (ps ++ rest) t) same
              ∙ forward-Wrote out t ps rest ok w;
        };
        more = w.more;
        still = w.still;
        mmaps = refl;
        pid = refl;
      }
