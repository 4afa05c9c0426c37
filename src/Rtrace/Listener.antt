-- ===== src/Rtrace/Listener.antt =====
-- `flush_data`, `write_data`, `scan_mmap_data`, `process_handshake` and `process_packet` of
-- src/rtrace/listener.c, which takes packets from the traced process and passes them on.
pub mod Maps
pub mod Loop
pub mod Packet
pub mod Passing
pub mod Buffered
pub mod Forward
pub mod Strings
pub mod Special
pub mod Scan
pub mod Session
use sp_rtrace.Prelude.{
  ℕ, zero, suc, ◌+◌, ◌*◌, ◌%◌, ◌^◌, Bool, true, false, List, [], ◌∷◌, ◌++◌, Option, none, some, ltb,
  leb, ◌==◌, ◌&&◌, ◌||◌, not, if◌then◌else◌, length, take, drop,
}
use sp_rtrace.Proto.Memory.{Bytes}
use sp_rtrace.Proto.Encode.{dword}
use sp_rtrace.Proto.Types.{output_settings, process_info, new_library, attachment}
use sp_rtrace.Proto.Read.{
  Reader, ◌>>=◌, pure, read_word, read_dword, read_chunk, c_string, read_text,
}
use sp_rtrace.Rtrace.Listener.Maps.{
  Mapping, Line, find_mmap, remove_mmap, same_mmap, mmap_packet, executable, mapping_of,
}

abbrev pub buffer_size : ℕ
buffer_size = 4096

abbrev pub path_max : ℕ
path_max = 4096

-- `written` holds all bytes that the file or the post-processor has been given. `output_dir`,
-- `postproc`, `disable_packet_buffering` and `pid` are fields of `rtrace_options`.
pub record Listener : Type 0 where
  pub fd_out : ℕ
  pub output_buffer : Bytes
  pub hs_buffer : Bytes
  pub s_mmaps : List Mapping
  pub output_dir : Option Bytes
  pub postproc : Option Bytes
  pub disable_packet_buffering : Bool
  pub pid : ℕ
  pub written : Bytes

-- What the listener asks of the system at a packet: whether `write` succeeds, the descriptor of
-- `rtrace_connect_output`, the time of day, and the lines of /proc/<pid>/maps.
pub record System : Type 0 where
  pub answer : Bool
  pub connect : Option Bytes → Option Bytes → ℕ
  pub tv_sec : ℕ
  pub tv_usec : ℕ
  pub maps : ℕ → List Line

-- `write_data` and what calls it: the state, with the result -1 or another one. `overflow` is a
-- `memcpy` past the end of `output_buffer`.
pub data Write : Type 0 where
  wrote : Listener → Write
  failed : Listener → Write
  overflow : Write

unfoldable pub flush_data : Bool → Listener → Write
flush_data answer s =
    if ltb 0 s.fd_out && not (length s.output_buffer == 0)
    then if answer
      then wrote (record s { written = s.written ++ s.output_buffer; output_buffer = [] })
      else failed s
    else wrote (record s { output_buffer = [] })

-- Without buffering, `write` fails on a descriptor that is not open.
unfoldable pub write_data : Bool → Bytes → Listener → Write
write_data answer bs s =
    let copied = record s { output_buffer = s.output_buffer ++ bs } in
    if s.disable_packet_buffering
    then if answer then wrote (record s { written = s.written ++ bs }) else failed s
    else if ltb (buffer_size * 2) (length copied.output_buffer)
    then overflow
    else if leb buffer_size (length copied.output_buffer)
    then flush_data answer copied
    else wrote copied

-- A caller that ignores the result.
abbrev pub state_of : Write → Option Listener
state_of (wrote s) = some s
state_of (failed s) = some s
state_of overflow = none

-- What a loop does after a write.
abbrev pub and_write : Write → (Listener → Write) → Write
and_write (wrote s) go = go s
and_write (failed s) go = failed s
and_write overflow go = overflow

-- A new mapping, in place of one that overlaps it.
unfoldable pub add_mmap : Bool → Mapping → Listener → Write
add_mmap answer m s =
    write_data answer (mmap_packet m) (record s { s_mmaps = remove_mmap m s.s_mmaps ++ m ∷ [] })

abbrev pub is_known : Mapping → Option Mapping → Bool
is_known m none = false
is_known m (some x) = same_mmap x m

-- One line of the maps file.
unfoldable pub scan_line : Bool → Line → Listener → Write
scan_line answer l s =
    let m = mapping_of l in
    if not (executable l) || is_known m (find_mmap m s.s_mmaps)
    then wrote s
    else add_mmap answer m s

-- The first write that fails ends the scan.
unfoldable pub scan_mmap_data : Bool → List Line → Listener → Write
scan_mmap_data answer [] s = wrote s
scan_mmap_data answer (l ∷ ls) s = and_write (scan_line answer l s) (scan_mmap_data answer ls)

-- The size of `hs_buffer`.
abbrev pub hs_buffer_size : ℕ
hs_buffer_size = 256

-- `none` is a handshake that is fragmented.
unfoldable pub process_handshake : Bytes → Option (Bytes × Bytes)
process_handshake [] = none
process_handshake (a ∷ []) = none
process_handshake (a ∷ n ∷ d) = if ltb (length d) n then none else some (a ∷ n ∷ take n d, drop n d)

-- What `process_packet` returns: -1, with the state at that point, or the size of the packet,
-- which stands for the packet as it is left in the buffer and what is behind it. `broken` is a
-- read or write out of bounds, or a string that does not fit and leaves its buffer unset.
pub data Result : Type 0 where
  refused : Listener → Result
  passed : Bytes → Bytes → Listener → Result
  broken : Result

abbrev pub read_within : ℕ → Reader Bytes
read_within len d = let text = read_text len d in if leb path_max len then none else text

-- `read_string` for a buffer of PATH_MAX bytes.
unfoldable pub read_string : Reader Bytes
read_string = do len ← read_word; text ← read_within len; pure (c_string text)

-- An empty text keeps the option.
abbrev pub set_text : Option Bytes → Bytes → Option Bytes
set_text old [] = old
set_text old (c ∷ s) = some (c ∷ s)

-- The options, the output, and the handshake that was kept.
abbrev pub with_settings : System → Bytes → Bytes → Listener → Write
with_settings out output_dir postproc s =
    let dir = set_text s.output_dir output_dir in
    let post = set_text s.postproc postproc in
    write_data out.answer s.hs_buffer
      (record s { output_dir = dir; postproc = post; fd_out = out.connect dir post })

abbrev pub read_settings : Reader (Bytes × Bytes)
read_settings = do output_dir ← read_string; postproc ← read_string; pure (output_dir, postproc)

-- The pid and the seconds.
abbrev pub read_pid_secs : Reader (ℕ × ℕ)
read_pid_secs = do pid ← read_dword; secs ← read_dword; pure (pid, secs)

-- `write_dword` to the buffer, twice, behind `n` bytes; `none` is past its end.
unfoldable pub stamp : ℕ → ℕ → ℕ → Bytes → Option Bytes
stamp n sec usec d =
    if ltb (length d) (n + 8)
    then none
    else some (take n d ++ (dword sec ++ (dword usec ++ drop (n + 8) d)))

-- `write_data` of the packet, whose result is ignored.
abbrev pub forward_from : ℕ → Bytes → Option Listener → Result
forward_from len d none = broken
forward_from len d (some s) = passed (take len d) (drop len d) s

abbrev pub forward : System → ℕ → Bytes → Listener → Result
forward out len d s = forward_from len d (state_of (write_data out.answer (take len d) s))

abbrev pub after_settings : System → ℕ → Bytes → Write → Result
after_settings out len d (wrote s) = forward out len d s
after_settings out len d (failed s) = refused s
after_settings out len d overflow = broken

abbrev pub process_settings :
    System → ℕ → Bytes → Listener → Option ((Bytes × Bytes) × Bytes) → Result
process_settings out len d s none = broken
process_settings out len d s (some ((output_dir, postproc), rest)) =
    after_settings out len d (with_settings out output_dir postproc s)

abbrev pub forward_stamped : System → ℕ → Option Bytes → Listener → Result
forward_stamped out len none s = broken
forward_stamped out len (some d) s = forward out len d s

-- The seconds of the packet are behind its header of 8 bytes and the pid.
abbrev pub process_process : System → ℕ → Bytes → Listener → Option ((ℕ × ℕ) × Bytes) → Result
process_process out len d s none = broken
process_process out len d s (some ((pid, secs), rest)) =
    let t = record s { pid = pid } in
    if secs == 0
    then forward_stamped out len (stamp 12 out.tv_sec out.tv_usec d) t
    else forward out len d t

-- A scan of the mappings, whose result is ignored.
abbrev pub rescan : System → Listener → Option Listener
rescan out s = state_of (scan_mmap_data out.answer (out.maps s.pid) s)

abbrev pub process_library : System → ℕ → Bytes → Listener → Option (Bytes × Bytes) → Result
process_library out len d s none = broken
process_library out len d s (some (path, rest)) = forward_from len d (rescan out s)

-- The file is only looked at, for a warning.
abbrev pub process_attachment :
    System → ℕ → Bytes → Listener → Option ((Bytes × Bytes) × Bytes) → Result
process_attachment out len d s none = broken
process_attachment out len d s (some (texts, rest)) = forward out len d s

-- A whole packet of the type, with the header in front of `body`.
unfoldable pub process_type : System → ℕ → ℕ → Bytes → Bytes → Listener → Result
process_type out type len d body s =
    if type == output_settings
    then process_settings out len d s (read_settings body)
    else if type == process_info
    then process_process out len d s (read_pid_secs body)
    else if type == new_library
    then process_library out len d s (read_string body)
    else if type == attachment
    then process_attachment out len d s (read_settings body)
    else forward out len d s

abbrev pub read_type_len : Reader (ℕ × ℕ)
read_type_len = do type ← read_dword; len ← read_dword; pure (type, len)

-- The length is unsigned.
abbrev pub process_whole : System → Bytes → Listener → Option ((ℕ × ℕ) × Bytes) → Result
process_whole out d s none = refused s
process_whole out d s (some ((type, n), body)) =
    let len = (n + 8) % 2 ^ 32 in
    if ltb (length d) len then refused s else process_type out type len d body s

-- Less than a header is no packet.
unfoldable pub process_packet : System → Bytes → Listener → Result
process_packet out d s = process_whole out d s (read_type_len d)
