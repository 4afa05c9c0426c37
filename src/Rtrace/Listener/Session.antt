-- ===== src/Rtrace/Listener/Session.antt =====
-- A whole run of `process_data`, from the handshake to the end of the pipe.
use sp_rtrace.Prelude.{
  ℕ, suc, ◌+◌, ◌%◌, ◌^◌, ◌≤◌, ◌<◌, Bool, true, false, List, [], ◌∷◌, ◌++◌, ◌≡◌, refl, sym, ap, ap₂,
  ◌∙◌, subst, Option, some, ltb, if◌then◌else◌, length, length-append, append_assoc, append-nil,
  arith, All, take, drop, take-append-drop,
}
use sp_rtrace.Proto.Memory.{Bytes}
use sp_rtrace.Proto.Encode.{string, IsString}
use sp_rtrace.Proto.Types.{output_settings, process_info, new_library}
use sp_rtrace.Tracer.Packet.Emits.{framed, Framed, packets}
use sp_rtrace.Tracer.Events.{Process}
use sp_rtrace.Tracer.Events.Encoded.{settings_bytes, process_bytes}
use sp_rtrace.Rtrace.Listener.{Listener, System, process_handshake, buffer_size, hs_buffer_size}
use sp_rtrace.Rtrace.Listener.Maps.{Line}
use sp_rtrace.Rtrace.Listener.Buffered.{stream, IsOpen, take-append, drop-append}
use sp_rtrace.Rtrace.Listener.Forward.{IsPlain, packets-Passing, finish-all}
use sp_rtrace.Rtrace.Listener.Special.{connected, stamped_bytes, settings-Relayed, process-Relayed}
use sp_rtrace.Rtrace.Listener.Scan.{news, map_packets, FitsLine, library-Scanned}
use sp_rtrace.Rtrace.Listener.Loop.{
  Answer, got, returns_0, crashed, after_handshake, process_packets, process_data,
}
use sp_rtrace.Rtrace.Listener.Passing.{
  Passing, packet, Passing-append, arrivals, process_packets-arrivals,
}

-- What a traced process sends behind the handshake: its output settings, itself, packets, the
-- libraries, and more packets.
pub record Session : Type 0 where
  pub output_dir : Option Bytes
  pub postproc : Option Bytes
  pub process : Process
  pub before : List Framed
  pub library : Option Bytes
  pub later : List Framed

pub record IsSession (x : Session) : Type 0 where
  pub output_dir : IsString x.output_dir
  pub postproc : IsString x.postproc
  pub library : IsString x.library
  pub settings_fits :
      length (framed output_settings (settings_bytes x.output_dir x.postproc)) ≤ buffer_size
  pub process_fits : length (framed process_info (process_bytes x.process)) ≤ buffer_size
  pub library_fits : length (framed new_library (string x.library)) ≤ buffer_size
  pub before : All IsPlain x.before
  pub later : All IsPlain x.later

unfoldable pub session_bytes : Session → Bytes
session_bytes x =
    framed output_settings (settings_bytes x.output_dir x.postproc)
    ++ (framed process_info (process_bytes x.process)
        ++ (packets x.before ++ (framed new_library (string x.library) ++ packets x.later)))

-- What comes out for it: the process with its time of start, and the mappings for the libraries.
unfoldable pub relayed_bytes : System → List Line → Session → Bytes
relayed_bytes out lines x =
    framed output_settings (settings_bytes x.output_dir x.postproc)
    ++ (framed process_info (stamped_bytes out x.process)
        ++ (packets x.before ++ (map_packets (news lines []) ++ packets x.later)))

-- A handshake packet that fits 256 bytes: any byte, the size of the rest, and the rest.
pub data IsHandshake : Bytes → Type 0 where
  handshake : {a : ℕ} (d : Bytes) → length d ≤ 254 → IsHandshake (a ∷ length d ∷ d)

-- The time of start comes at packet 1, the mappings come at the packet behind the initial ones.
abbrev pub lines_of : (ℕ → System) → Session → List Line
lines_of outs x = (outs (2 + length x.before)).maps (x.process.pid % 2 ^ 32)

joined :
    (a b c d e f g : Bytes)
    → ((((((a ++ (b ++ c)) ++ d) ++ e) ++ f) ++ g)) ≡ a ++ (b ++ (c ++ (d ++ (e ++ (f ++ g)))))
joined a b c d e f g = simp append_assoc

module _ (outs : ℕ → System) (ok : (i : ℕ) → (outs i).answer ≡ true) where
  session-Passing :
      (s : Listener) (x : Session)
      → s.output_buffer ≡ []
      → s.s_mmaps ≡ []
      → 0 < (connected (outs 0) x.output_dir x.postproc s).fd_out
      → length s.hs_buffer ≤ buffer_size
      → IsSession x
      → All FitsLine (lines_of outs x)
      → (m : ℕ) × (t : Listener) × Passing outs 0 s (session_bytes x) m t
        × (stream t ≡ s.written ++ (s.hs_buffer ++ relayed_bytes (outs 1) (lines_of outs x) x))
        × IsOpen t
  unfolding session_bytes relayed_bytes
  session-Passing s x empty new live short h lines =
      let a =
        settings-Relayed (outs 0) (ok 0) s x.output_dir x.postproc empty live short h.output_dir
          h.postproc h.settings_fits in
      let b = process-Relayed (outs 1) (ok 1) a.state x.process a.still h.process_fits in
      let (c, initial, more, still, kept) =
        packets-Passing outs x.before 2 b.state ok b.still h.before in
      let here = 2 + length x.before in
      let pid : c.pid ≡ x.process.pid % 2 ^ 32 = kept.pid ∙ b.pid in
      let lines' = subst (λ p. All FitsLine ((outs here).maps p)) (sym pid) lines in
      let (d, library, announced, still', mmaps) =
        library-Scanned (outs here) (ok here) c x.library still h.library h.library_fits lines' in
      let found =
        ap₂ (λ p l. news ((outs here).maps p) l) pid (kept.mmaps ∙ b.mmaps ∙ a.mmaps ∙ new) in
      let settings = framed output_settings (settings_bytes x.output_dir x.postproc) in
      let started = framed process_info (stamped_bytes (outs 1) x.process) in
      let nothing : stream s ≡ s.written = ap (λ l. s.written ++ l) empty ∙ append-nil s.written in
      let (e, later, last, still'', kept') =
        packets-Passing outs x.later (suc here) d ok still' h.later in
      (
        _,
        e,
        packet a.passes (packet b.passes (Passing-append outs initial (packet library later))),
        last
            ∙ ap (λ l. l ++ packets x.later)
                (announced
                  ∙ ap₂ ◌++◌
                      (more
                        ∙ ap (λ l. l ++ packets x.before)
                            (b.more
                              ∙ ap (λ l. l ++ started)
                                  (a.more ∙ ap (λ l. l ++ (s.hs_buffer ++ settings)) nothing)))
                      (ap map_packets found))
            ∙ joined s.written s.hs_buffer settings started (packets x.before)
                (map_packets (news (lines_of outs x) [])) (packets x.later),
        still'',
      )

  process_handshake-IsHandshake :
      {hs : Bytes} (rest : Bytes)
      → IsHandshake hs
      → process_handshake (hs ++ rest) ≡ some (hs, rest)
  unfolding process_handshake
  process_handshake-IsHandshake rest (handshake {a} d small) =
      let n = length d in
      let fits : ltb (length (d ++ rest)) n ≡ false = ground (arith, length-append d rest) in
      rw (fits, take-append d rest, drop-append d rest) refl

  started_with :
      {hs : Bytes} (rest : Bytes) (reads : List (Bool × Answer)) (s : Listener)
      → IsHandshake hs
      → process_data outs (got (hs ++ rest)) reads s
        ≡ process_packets outs 0 hs rest reads (record s { s_mmaps = []; hs_buffer = hs })
  unfolding process_data
  started_with {hs} rest reads s (handshake {a} d small) =
      let hs = a ∷ length d ∷ d in
      let fits : ltb hs_buffer_size (length hs) ≡ false = ground (arith, small) in
      ap (λ r. after_handshake outs r reads (record s { s_mmaps = [] }))
        (process_handshake-IsHandshake rest (handshake {a = a} d small))
      ∙ ap
          (λ b.
            if b
            then crashed
            else process_packets outs 0 hs rest reads (record s { s_mmaps = []; hs_buffer = hs }))
          fits

  length-IsHandshake : {hs : Bytes} → IsHandshake hs → length hs ≤ buffer_size
  length-IsHandshake (handshake d small) = omega (arith, small)

  -- Let every `write` succeed, the buffer be empty and the output be connected by the settings.
  -- For a handshake of at most 256 bytes, output settings, a process, packets of types that the
  -- listener does not know, a library and more such packets, each small enough for one `read` and
  -- cut anywhere behind the handshake, and with lines of the maps file that fit a packet,
  -- `process_data` returns 0 with everything written: the handshake, the settings, the process
  -- with the time of day for its start, the packets unchanged and in order, and in place of the
  -- library the packets of its new executable mappings.
  pub process_data-relayed_bytes :
      (s : Listener) (hs : Bytes) (x : Session) (k : ℕ) (sizes : List ℕ)
      → s.output_buffer ≡ []
      → 0 < (connected (outs 0) x.output_dir x.postproc s).fd_out
      → IsHandshake hs
      → IsSession x
      → All FitsLine (lines_of outs x)
      → (t : Listener) × (process_data outs
            (got (hs ++ take k (session_bytes x)))
            (arrivals sizes (drop k (session_bytes x)))
            s
          ≡ returns_0 t)
        × (t.written ≡ s.written ++ (hs ++ relayed_bytes (outs 1) (lines_of outs x) x))
        × (t.output_buffer ≡ [])
  process_data-relayed_bytes s hs x k sizes empty live h valid lines =
      let bytes = session_bytes x in
      let s' = record s { s_mmaps = []; hs_buffer = hs } in
      let (m, t, passing, more, still) =
        session-Passing s' x empty refl live (length-IsHandshake h) valid lines in
      (
        _,
        started_with (take k bytes) (arrivals sizes (drop k bytes)) s h
            ∙ process_packets-arrivals outs hs (take k bytes) sizes (drop k bytes)
                (subst (λ l. Passing outs 0 s' l m t) (sym (take-append-drop k bytes)) passing)
            ∙ finish-all outs m t (ok m) still,
        more,
        refl,
      )
