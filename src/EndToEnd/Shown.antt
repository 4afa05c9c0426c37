-- ===== src/EndToEnd/Shown.antt =====
-- The reader of the post-processor on what the listener has written.
use sp_rtrace.Prelude.{
  ℕ, ◌+◌, ◌-◌, ◌≤◌, ◌<◌, List, [], ◌∷◌, ◌++◌, ◌≡◌, refl, sym, ap, ap₂, ◌∙◌, subst, none, All,
  length, append_assoc, arith, map, take, drop, take-append-drop, Bool-cases, inl, inr,
}
use sp_rtrace.Proto.Memory.{Bytes}
use sp_rtrace.Proto.Encode.{IsCString, IsString}
use sp_rtrace.Proto.Types.{process_info, output_settings, module_info}
use sp_rtrace.Tracer.Pipe.{Pipe}
use sp_rtrace.Tracer.Packet.Emits.{framed, packets, packets-append}
use sp_rtrace.Tracer.Handshake.Stored.{handshake_size, handshake_bytes}
use sp_rtrace.Tracer.Initial.{
  Initial, first_packets, registered, IsSmall, module_packet, resource_packet,
}
use sp_rtrace.Tracer.Events.Encoded.{settings_bytes, module_bytes}
use sp_rtrace.Tracer.Call.Encoded.{Event, events_bytes}
use sp_rtrace.Rtrace.Listener.{System}
use sp_rtrace.Rtrace.Listener.Maps.{Mapping, Line, mapping_of, remove_mmap}
use sp_rtrace.Rtrace.Listener.Scan.{news, map_packets, is_old, FitsLine}
use sp_rtrace.Rtrace.Listener.Special.{stamped_bytes, stamped_length}
use sp_rtrace.Rtrace.Listener.Session.{relayed_bytes}
use sp_rtrace.Binary.Generic.{Parser}
use sp_rtrace.Binary.Loop.{initial, empty_rd, finished}
use sp_rtrace.Binary.ReadBack.{IsModule, IsProcess}
use sp_rtrace.Binary.Calls.View.{view_of, view_call, IsLinked}
use sp_rtrace.Binary.Traces.{InTable}
use sp_rtrace.Binary.Calls.Arrive.{IsEvent}
use sp_rtrace.Binary.Calls.Sequence.{shown_all}
use sp_rtrace.Binary.Chunks.{Chain, read_chunks-reads}
use sp_rtrace.Binary.Chunks.Events.{Fits, chain_events}
use sp_rtrace.Binary.Start.{hshake_of, read_process, read_process-handshake}
use sp_rtrace.EndToEnd.Announced.{
  IsStarted, Starts, Chain-append, index_from, IsKnown, IsMapping, settings_start, process_start,
  module_start, modules_start, resources_start, mmaps_start,
}
use sp_rtrace.EndToEnd.Session.{
  event_packets, first_packets-IsFirst, session_of, event_packets-bytes,
}

-- What a process announces has the widths of its C types, and types that the registry numbers.
pub record IsInitial (d : Initial) : Type 0 where
  pub arch : IsCString d.arch
  pub short : length d.arch < 250
  pub output_dir : IsString d.output_dir
  pub postproc : IsString d.postproc
  pub process : IsProcess d.process
  pub def_module : IsModule d.def_module
  pub modules : All IsModule d.modules
  pub resources : All IsKnown d.resources
  pub small : All IsSmall (first_packets d)

-- A line of the maps file whose mapping fits a packet.
abbrev pub IsLine : Line → Type 0
IsLine l = IsMapping (mapping_of l)

pub fits_lines : (ls : List Line) → All IsLine ls → All FitsLine ls
fits_lines [] h = tt
fits_lines (l ∷ ls) h = (h.0.1, fits_lines ls h.1)

news-IsMapping : (ls : List Line) (ms : List Mapping) → All IsLine ls → All IsMapping (news ls ms)
unfolding news
news-IsMapping [] ms h = tt
news-IsMapping (l ∷ ls) ms h = elim (Bool-cases (is_old l ms)) [
  | inl old ↦ rw old (news-IsMapping ls ms h.1)
  | inr new ↦
      rw new (h.0, news-IsMapping ls (remove_mmap (mapping_of l) ms ++ mapping_of l ∷ []) h.1)
]

regroup : (a b c d e : Bytes) → a ++ (b ++ (c ++ (d ++ e))) ≡ (a ++ (b ++ (c ++ d))) ++ e
regroup a b c d e = simp append_assoc

module _ (out : System) (lines : List Line) (d : Initial) (es : List Event) where
  -- Everything in front of the calls.
  abbrev first_bytes : Bytes
  first_bytes =
      framed output_settings (settings_bytes d.output_dir d.postproc)
      ++ (framed process_info (stamped_bytes out d.process)
          ++ ((framed module_info (module_bytes d.def_module)
                ++ (packets (map module_packet d.modules)
                    ++ packets (map resource_packet d.resources)))
              ++ map_packets (news lines [])))

  first_bytes-Starts :
      (p : Parser)
      → IsStarted p 0 (λ i. none)
      → IsInitial d
      → All IsLine lines
      → (m : ℕ) × Starts p first_bytes m (index_from 0 (λ i. none) d.resources)
  first_bytes-Starts p started h k =
      let f = first_packets-IsFirst d h.small in
      let stamped : length (framed process_info (stamped_bytes out d.process)) ≤ 4096 =
        let f' = f.process in omega (arith, f', stamped_length out d.process) in
      let (q₁, c₁, s₁) = settings_start p started _ f.settings in
      let (q₂, c₂, s₂) = process_start q₁ s₁ out d.process h.process stamped in
      let (q₃, c₃, s₃) = module_start q₂ s₂ d.def_module h.def_module f.def_module in
      let (q₄, c₄, s₄) = modules_start d.modules q₃ s₃ h.modules f.modules in
      let (m, (q₅, c₅, s₅)) = resources_start d.resources q₄ s₄ h.resources f.resources in
      let (q₆, c₆, s₆) = mmaps_start (news lines []) q₅ s₅ (news-IsMapping lines [] k) in
      (
        m,
        (
          q₆,
          Chain-append c₁
              (Chain-append c₂ (Chain-append (Chain-append c₃ (Chain-append c₄ c₅)) c₆)),
          s₆,
        ),
      )

  relayed_bytes-first_bytes :
      relayed_bytes out lines (session_of d es) ≡ first_bytes ++ events_bytes es
  unfolding relayed_bytes registered packets
  relayed_bytes-first_bytes =
      let settings = framed output_settings (settings_bytes d.output_dir d.postproc) in
      let process = framed process_info (stamped_bytes out d.process) in
      let first = framed module_info (module_bytes d.def_module) in
      let types = packets (map resource_packet d.resources) in
      ap
        (λ l.
          settings
          ++ (process
              ++ ((first ++ l) ++ (map_packets (news lines []) ++ packets (event_packets es)))))
        (packets-append (map module_packet d.modules) (map resource_packet d.resources))
      ∙ ap
          (λ l.
            settings
            ++ (process
                ++ ((first ++ (packets (map module_packet d.modules) ++ types))
                    ++ (map_packets (news lines []) ++ l))))
          (event_packets-bytes es)
      ∙ regroup settings process (first ++ (packets (map module_packet d.modules) ++ types))
          (map_packets (news lines [])) (events_bytes es)

reader_IsStarted : (arch : Bytes) → IsStarted (initial (hshake_of 2 0 arch)) 0 (λ i. none)
unfolding initial empty_rd
reader_IsStarted arch = record {
  new = omega arith;
  calls = refl;
  first = refl;
  types = refl;
  found = refl;
}

no_calls : (p : Parser) → p.rd.calls ≡ [] → IsLinked p.rd × (view_of p.rd ≡ [])
no_calls p h = (
  subst (λ cs. All (λ c. InTable p.rd.ftraces c.trace) cs) (sym h) tt,
  ap (map (view_call p.rd.ftraces)) h,
)

-- The reader on what the listener writes.
pub relayed_shown :
    (s : Pipe) (out : System) (lines : List Line) (d : Initial) (es : List Event) (k : ℕ)
    (sizes : List ℕ)
    → IsInitial d
    → All IsLine lines
    → All IsEvent es
    → All Fits es
    → (q : Parser) × (read_process
          (handshake_size d.arch - 1 + k)
          sizes
          (handshake_bytes s 2 0 d.arch ++ relayed_bytes out lines (session_of d es))
        ≡ finished q)
      × (view_of q.rd ≡ shown_all (index_from 0 (λ i. none) d.resources) 1 es)
relayed_shown s out lines d es k sizes h ls valid fits =
    let p = initial (hshake_of 2 0 d.arch) in
    let bytes = relayed_bytes out lines (session_of d es) in
    let (m, (u, front, started)) =
      first_bytes-Starts out lines d es p (reader_IsStarted d.arch) h ls in
    let (linked, empty) = no_calls u started.calls in
    let (q, chain, seen) = chain_events u es started.new linked valid fits in
    let whole =
      subst (λ l. Chain p l q)
        (sym (relayed_bytes-first_bytes out lines d es) ∙ sym (take-append-drop k bytes))
        (Chain-append front chain) in
    (
      q,
      read_process-handshake s 2 0 d.arch bytes k sizes (omega arith) (omega arith) h.short h.arch
          ∙ read_chunks-reads {p = p} (take k bytes) sizes (drop k bytes) whole,
      seen ∙ ap₂ (λ l r. l ++ r) empty (ap₂ (λ i f. shown_all f i es) started.first started.found),
    )
