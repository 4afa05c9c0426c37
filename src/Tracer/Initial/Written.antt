-- ===== src/Tracer/Initial/Written.antt =====
-- What `write_initial_data` leaves in the pipe.
use sp_rtrace.Prelude.{
  ◌≤◌, ◌<◌, true, false, List, [], ◌∷◌, ◌++◌, ◌≡◌, refl, sym, ap, ◌∙◌, some, map, length, arith,
  append-nil, append_assoc, All, not, if◌then◌else◌, subst,
}
use sp_rtrace.Proto.Memory.{Bytes, slice}
use sp_rtrace.Proto.Types.{
  output_settings, process_info, module_info, resource_registry, new_library,
}
use sp_rtrace.Tracer.Pipe.{Pipe, buffer_size, flush, reset}
use sp_rtrace.Tracer.Pipe.Stream.{
  stream, IsReady, flush-written, finish, stream-finish, finish-IsReady, finish-enable,
}
use sp_rtrace.Tracer.Packet.{Cursor, send}
use sp_rtrace.Tracer.Packet.Emits.{Emits, framed, Framed, packets, packet-Emits}
use sp_rtrace.Tracer.Handshake.{write_handshake, align_size}
use sp_rtrace.Tracer.Handshake.Stored.{
  handshake_size, handshake_bytes, length-handshake_bytes, write_handshake-finish,
}
use sp_rtrace.Tracer.Events.{
  Module, Resource, send_enabled, write_module_info, write_resource_registry, write_output_settings,
  write_process_info, write_new_library,
}
use sp_rtrace.Tracer.Events.Encoded.{
  module_body-Emits, resource_body-Emits, settings_body-Emits, process_body-Emits,
  library_body-Emits,
}
use sp_rtrace.Tracer.Call.Sent.{Sends, send-Sends}
use sp_rtrace.Tracer.Initial.{
  Initial, Operation, next, send_all, all_libraries, operations, write_initial_data, module_packet,
  resource_packet, library_packet, registered, first_packets, IsSmall,
}

-- On an enabled pipe, the operation sends the packet.
abbrev Does : Operation → Framed → Type 0
Does f p = (s : Pipe) → s.enable ≡ true → IsReady s → Sends s (framed p.0 p.1) (f s)

data DoAll : List Operation → List Framed → Type 0 where
  nil : DoAll [] []
  cons :
      {f : Operation} {fs : List Operation} {p : Framed} {ps : List Framed}
      → Does f p
      → DoAll fs ps
      → DoAll (f ∷ fs) (p ∷ ps)

DoAll-append :
    {fs gs : List Operation} {ps qs : List Framed}
    → DoAll fs ps
    → DoAll gs qs
    → DoAll (fs ++ gs) (ps ++ qs)
DoAll-append nil k = k
DoAll-append (cons one h) k = cons one (DoAll-append h k)

enabled_sent :
    {body : Cursor → Cursor} {bs : Bytes} (s : Pipe)
    → Emits body bs
    → s.enable ≡ true
    → IsReady s
    → Sends s bs (send_enabled body true s)
unfolding send_enabled
enabled_sent {body} {bs} s h on ready =
    subst (λ b. Sends s bs (if not b then some (s, 0) else send body true s)) (sym on)
      (send-Sends s h ready)

module_sent : (m : Module) → Does (write_module_info m true) (module_packet m)
unfolding write_module_info
module_sent m s on ready = enabled_sent s (packet-Emits module_info (module_body-Emits m)) on ready

resource_sent : (r : Resource) → Does (write_resource_registry r true) (resource_packet r)
unfolding write_resource_registry
resource_sent r s on ready =
    enabled_sent s (packet-Emits resource_registry (resource_body-Emits r)) on ready

library_sent : Does (write_new_library all_libraries true) library_packet
unfolding write_new_library
library_sent s on ready =
    send-Sends s (packet-Emits new_library (library_body-Emits all_libraries)) ready

modules_do :
    (ms : List Module) → DoAll (map (λ m. write_module_info m true) ms) (map module_packet ms)
modules_do [] = nil
modules_do (m ∷ ms) = cons (module_sent m) (modules_do ms)

resources_do :
    (rs : List Resource)
    → DoAll (map (λ r. write_resource_registry r true) rs) (map resource_packet rs)
resources_do [] = nil
resources_do (r ∷ rs) = cons (resource_sent r) (resources_do rs)

abbrev rest_packets : Initial → List Operation
rest_packets d =
    map (λ m. write_module_info m true) d.modules
    ++ (map (λ r. write_resource_registry r true) d.resources
        ++ write_new_library all_libraries true ∷ [])

rest_assoc :
    (d : Initial)
    → (map module_packet d.modules ++ map resource_packet d.resources) ++ library_packet ∷ []
      ≡ map module_packet d.modules ++ (map resource_packet d.resources ++ library_packet ∷ [])
rest_assoc d =
    append_assoc (map module_packet d.modules) (map resource_packet d.resources)
      (library_packet ∷ [])

later_do : (d : Initial) → DoAll (operations true d) (first_packets d)
unfolding operations first_packets registered write_output_settings write_process_info
    write_new_library
later_do d =
    cons
      (λ s on ready.
        send-Sends s (packet-Emits output_settings (settings_body-Emits d.output_dir d.postproc))
          ready)
      (cons
        (λ s on ready.
          send-Sends s (packet-Emits process_info (process_body-Emits d.process)) ready)
        (cons (module_sent d.def_module) (
          subst (DoAll (rest_packets d)) (sym (rest_assoc d)) (
            DoAll-append (modules_do d.modules)
              (DoAll-append (resources_do d.resources) (cons library_sent nil))))))

send_all-DoAll :
    {fs : List Operation} {ps : List Framed} (s : Pipe)
    → DoAll fs ps
    → All IsSmall ps
    → s.enable ≡ true
    → IsReady s
    → (t : Pipe) × (send_all true fs s ≡ some (flush true t))
      × (stream t ≡ stream s ++ packets ps)
      × IsReady t
      × (t.enable ≡ true)
unfolding send_all packets
send_all-DoAll s nil small on ready = (s, refl, sym (append-nil (stream s)), ready, on)
send_all-DoAll s (cons {f} {fs} {p} {ps} one h) small on ready =
    let sent = one s on ready in
    let (t, run, more, still, on') =
      send_all-DoAll sent.after h small.1 (sent.enabled ∙ on) (sent.ready small.0) in
    (
      t,
      ap (λ r. next r (send_all true fs)) sent.returns ∙ run,
      more
          ∙ ap (λ l. l ++ packets ps) sent.appended
          ∙ append_assoc (stream s) (framed p.0 p.1) (packets ps),
      still,
      on',
    )

-- The handshake, on an unlocked pipe, at the start of the buffer.
handshake_sent :
    (d : Initial) (s : Pipe)
    → IsReady s
    → s.enable ≡ true
    → length d.arch < 250
    → (u : Pipe) × (write_handshake 2 0 d.arch true s ≡ some (u, handshake_size d.arch))
      × (stream u ≡ stream s ++ handshake_bytes s 2 0 d.arch)
      × IsReady u
      × (u.enable ≡ true)
unfolding stream align_size
handshake_sent d s ready on short =
    let bs = handshake_bytes s 2 0 d.arch in
    let held = record s { locked = true } in
    let small : length bs ≤ buffer_size =
      omega (arith, length-handshake_bytes s 2 0 d.arch, short) in
    (
      finish held bs true,
      write_handshake-finish s 2 0 d.arch true ready.unlocked,
      stream-finish held bs,
      finish-IsReady held bs true ready.below small,
      finish-enable held bs ∙ on,
    )

stream-reset : (s : Pipe) → stream (reset s) ≡ s.written
unfolding stream reset slice
stream-reset s = append-nil s.written

-- On an enabled, unlocked pipe, with an architecture of less than 250 characters and packets that
-- fit half of the buffer, `write_initial_data` returns when `write` succeeds; the handshake, the
-- output settings, the process, the main module, the other modules, the resource types and a
-- library are in the pipe in this order behind what was written before, nothing waits in the
-- buffer, and it is unlocked and in bounds.
pub write_initial_data-written :
    (d : Initial) (s : Pipe)
    → s.enable ≡ true
    → s.locked ≡ false
    → length d.arch < 250
    → All IsSmall (first_packets d)
    → (t : Pipe) × (write_initial_data d true s ≡ some t)
      × (t.written
          ≡ s.written ++ (handshake_bytes (reset s) 2 0 d.arch ++ packets (first_packets d)))
      × (t.head ≡ 0)
      × IsReady t
      × (t.enable ≡ true)
unfolding write_initial_data send_all stream reset flush
write_initial_data-written d s on unlocked short small =
    let ready : IsReady (reset s) = record { unlocked = unlocked; below = omega arith } in
    let (u, begun, front, ready', on') = handshake_sent d (reset s) ready on short in
    let (t, ran, more, ready'', on'') = send_all-DoAll u (later_do d) small on' ready' in
    (
      flush true t,
      ap (λ r. next r (send_all true (operations true d))) begun ∙ ran,
      flush-written t
          ∙ more
          ∙ ap (λ l. l ++ packets (first_packets d)) front
          ∙ ap (λ l. l ++ handshake_bytes (reset s) 2 0 d.arch ++ packets (first_packets d))
              (stream-reset s)
          ∙ append_assoc s.written (handshake_bytes (reset s) 2 0 d.arch)
              (packets (first_packets d)),
      refl,
      record { unlocked = ready''.unlocked; below = omega arith },
      on'',
    )

-- Nothing waits in the buffer.
pub stream-sent : (s : Pipe) → s.head ≡ 0 → stream s ≡ s.written
unfolding stream slice
stream-sent s h = ap (λ n. s.written ++ slice s.memory 0 n) h ∙ append-nil s.written
