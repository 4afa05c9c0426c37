-- ===== src/Rtrace/Listener/Scan.antt =====
-- What a scan of the memory mappings writes.
use sp_rtrace.Prelude.{
  ◌≤◌, Bool, true, List, [], ◌∷◌, ◌++◌, ◌≡◌, refl, sym, ap, ap₂, ◌∙◌, Option, ◌||◌, not,
  if◌then◌else◌, length, append_assoc, append-nil, arith, All, Bool-cases, inl, inr,
}
use sp_rtrace.Proto.Memory.{Bytes}
use sp_rtrace.Proto.Encode.{dword, string, IsString}
use sp_rtrace.Proto.Types.{new_library}
use sp_rtrace.Tracer.Packet.Emits.{framed}
use sp_rtrace.Binary.Framed.{length-framed}
use sp_rtrace.Rtrace.Listener.{
  Listener, System, Write, wrote, and_write, is_known, add_mmap, scan_line, scan_mmap_data,
  state_of, passed, process_library, forward_from, process_type, buffer_size,
}
use sp_rtrace.Rtrace.Listener.Maps.{
  Mapping, Line, executable, mapping_of, find_mmap, remove_mmap, mmap_packet,
}
use sp_rtrace.Rtrace.Listener.Buffered.{
  stream, IsOpen, with_output, write_data-Wrote, take-append, drop-append,
}
use sp_rtrace.Rtrace.Listener.Passing.{Passes}
use sp_rtrace.Rtrace.Listener.Strings.{read_string-string}

-- Whether a line is passed over: it is not executable, or it is the mapping that is stored.
unfoldable pub is_old : Line → List Mapping → Bool
is_old l ms = not (executable l) || is_known (mapping_of l) (find_mmap (mapping_of l) ms)

-- The new mappings of a file, in its order, and what is stored behind them.
unfoldable pub news : List Line → List Mapping → List Mapping
news [] ms = []
news (l ∷ ls) ms =
    let m = mapping_of l in
    let later = news ls (remove_mmap m ms ++ m ∷ []) in
    let rest = news ls ms in if is_old l ms then rest else m ∷ later

unfoldable pub stored : List Line → List Mapping → List Mapping
stored [] ms = ms
stored (l ∷ ls) ms =
    let m = mapping_of l in
    let later = stored ls (remove_mmap m ms ++ m ∷ []) in
    let rest = stored ls ms in if is_old l ms then rest else later

unfoldable pub map_packets : List Mapping → Bytes
map_packets [] = []
map_packets (m ∷ ms) = mmap_packet m ++ map_packets ms

-- The packet of the line's mapping fits the room of one `read`.
abbrev pub FitsLine : Line → Type 0
FitsLine l = length (mmap_packet (mapping_of l)) ≤ buffer_size

-- Only the output and the mappings have changed.
pub record Scanned (s : Listener) (ls : List Line) (w : Write) : Type 0 where
  pub state : Listener
  pub result : w ≡ wrote state
  pub more : stream state ≡ stream s ++ map_packets (news ls s.s_mmaps)
  pub mmaps : state.s_mmaps ≡ stored ls s.s_mmaps
  pub pid : state.pid ≡ s.pid
  pub still : IsOpen state

pub scan_mmap_data-Scanned :
    (ls : List Line) (s : Listener)
    → IsOpen s
    → All FitsLine ls
    → Scanned s ls (scan_mmap_data true ls s)
unfolding scan_mmap_data scan_line add_mmap news stored map_packets is_old
scan_mmap_data-Scanned [] s ready h = record {
  state = s;
  result = refl;
  more = sym (append-nil (stream s));
  mmaps = refl;
  pid = refl;
  still = ready;
}
scan_mmap_data-Scanned (l ∷ ls) s ready h = elim (Bool-cases (is_old l s.s_mmaps)) [
  | inl old ↦
      (let rest = scan_mmap_data-Scanned ls s ready h.1 in
        record {
          state = rest.state;
          result = rw old rest.result;
          more = rw old rest.more;
          mmaps = rw old rest.mmaps;
          pid = rest.pid;
          still = rest.still;
        })
  | inr new ↦
      (let m = mapping_of l in
        let ms = remove_mmap m s.s_mmaps ++ m ∷ [] in
        let t = record s { s_mmaps = ms } in
        let ready' : IsOpen t = record {
          connected = ready.connected;
          below = ready.below;
          direct = ready.direct;
        } in
        let w = write_data-Wrote t (mmap_packet m) ready' h.0 in
        let u = with_output w.written w.buffer t in
        let rest = scan_mmap_data-Scanned ls u w.still h.1 in
        record {
          state = rest.state;
          result = rw new (ap (λ r. and_write r (scan_mmap_data true ls)) w.result ∙ rest.result);
          more = rw new (
              rest.more
              ∙ ap (λ b. b ++ map_packets (news ls ms)) w.more
              ∙ append_assoc (stream s) (mmap_packet m) (map_packets (news ls ms)));
          mmaps = rw new rest.mmaps;
          pid = rest.pid;
          still = rest.still;
        })
]

module _ (out : System) (ok : out.answer ≡ true) where
  -- A library packet is not passed on; it brings the new mappings.
  pub library-Scanned :
      (s : Listener) (library : Option Bytes)
      → IsOpen s
      → IsString library
      → length (framed new_library (string library)) ≤ buffer_size
      → All FitsLine (out.maps s.pid)
      → (t : Listener) × Passes out s new_library (string library) t
        × (stream t ≡ stream s ++ map_packets (news (out.maps s.pid) s.s_mmaps))
        × IsOpen t
        × (t.s_mmaps ≡ stored (out.maps s.pid) s.s_mmaps)
  unfolding process_type dword
  library-Scanned s library ready h fits lines =
      let bs = string library in
      let ps = framed new_library bs in
      let scan = scan_mmap_data-Scanned (out.maps s.pid) s ready lines in
      let short : length bs ≤ buffer_size = omega (arith, fits, length-framed new_library bs) in
      (
        scan.state,
        record {
          small = omega arith;
          fits = fits;
          first = _;
          left = _;
          run = λ rest.
              ap (process_library out (length ps) (ps ++ rest) s)
                (read_string-string library h short rest)
              ∙ ap
                  (λ b.
                    forward_from (length ps) (ps ++ rest)
                      (state_of (scan_mmap_data b (out.maps s.pid) s)))
                  ok
              ∙ ap (λ r. forward_from (length ps) (ps ++ rest) (state_of r)) scan.result
              ∙ ap₂ (λ a b. passed a b scan.state) (take-append ps rest) (drop-append ps rest);
        },
        scan.more,
        scan.still,
        scan.mmaps,
      )
