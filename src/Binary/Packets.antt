-- ===== src/Binary/Packets.antt =====
-- The readers of single packets, `read_handshake_packet` and `read_packet_*` of
-- src/rtrace-postproc/parse_binary.c.
use sp_rtrace.Prelude.{
  ℕ, zero, suc, ◌/◌, ◌%◌, ◌^◌, Bool, false, List, [], ◌∷◌, Option, none, some, ◌==◌, ltb, leb, ◌&&◌,
  ◌||◌, if◌then◌else◌,
}
use sp_rtrace.Proto.Memory.{Bytes}
use sp_rtrace.Proto.Read.{
  Reader, ◌>>=◌, pure, read_byte, read_chunk, read_dword, read_dword2long, read_pointer,
  read_stringa, c_string,
}
use sp_rtrace.Binary.Data.{Hshake, Pinfo, Minfo, Mmap, Context, Resource, Hinfo, Attachment, Fcall}

-- HS_CHECK_VERSION
unfoldable pub check_version : Hshake → ℕ → ℕ → Bool
check_version hs major minor = ltb major hs.vmajor || (hs.vmajor == major && leb minor hs.vminor)

unfoldable pub read_handshake : Reader Hshake
read_handshake = do
  vmajor ← read_byte
  vminor ← read_byte
  len ← read_byte
  arch ← read_chunk len
  endianness ← read_byte
  pointer_size ← read_byte
  pure (record {
    vmajor = vmajor;
    vminor = vminor;
    arch = c_string arch;
    endianness = endianness;
    pointer_size = pointer_size;
  })

unfoldable pub read_context : Reader Context
read_context = do id ← read_dword2long; name ← read_stringa; pure (record { id = id; name = name })

-- The flags field came with protocol 1.3.
unfoldable pub read_flags : Hshake → Reader ℕ
read_flags hs = if check_version hs 1 3 then read_dword else pure 0

unfoldable pub read_resource : Hshake → Reader Resource
read_resource hs = do
  id ← read_dword2long
  flags ← read_flags hs
  type ← read_stringa
  desc ← read_stringa
  pure (record { id = id; type = type; desc = desc; flags = flags; hide = false })

unfoldable pub read_mmap : Reader Mmap
read_mmap = do
  from ← read_pointer
  to ← read_pointer
  name ← read_stringa
  pure (record { from = from; to = to; module_name = name })

-- The backtrace depth came with protocol 1.2.
unfoldable pub read_depth : Hshake → Reader (Option ℕ)
read_depth hs =
    if check_version hs 1 2 then (do depth ← read_dword; pure (some depth)) else pure none

unfoldable pub read_pinfo : Hshake → Reader Pinfo
read_pinfo hs = do
  pid ← read_dword
  sec ← read_dword
  usec ← read_dword
  depth ← read_depth hs
  name ← read_stringa
  pure (record { pid = pid; sec = sec; usec = usec; backtrace_depth = depth; name = name })

-- The two numbers are stored in bytes.
unfoldable pub read_minfo : Reader Minfo
read_minfo = do
  id ← read_dword
  version ← read_dword
  name ← read_stringa
  pure (record {
    id = id;
    vmajor = version / 2 ^ 16 % 256;
    vminor = version % 2 ^ 16 % 256;
    name = name;
  })

unfoldable pub read_attachment : Reader Attachment
read_attachment = do
  name ← read_stringa
  path ← read_stringa
  pure (record { name = name; path = path })

-- The resource type is the number read, which the caller replaces by a reference.
unfoldable pub read_fcall : ℕ → Reader (ℕ × Fcall)
read_fcall index = do
  res_type ← read_dword2long
  context ← read_dword
  timestamp ← read_dword
  type ← read_dword
  name ← read_stringa
  res_size ← read_dword
  res_id ← read_pointer
  pure (
    res_type,
    record {
      index = index;
      type = type;
      context = context;
      timestamp = timestamp;
      name = name;
      res_type = none;
      res_id = res_id;
      res_size = res_size;
      trace = none;
      args = none;
    },
  )

-- `memcpy` of `n` pointers.
unfoldable pub read_frames : ℕ → Reader (List ℕ)
read_frames zero = pure []
read_frames (suc n) = do f ← read_pointer; fs ← read_frames n; pure (f ∷ fs)

unfoldable pub read_ftrace : Reader (List ℕ)
read_ftrace = do nframes ← read_dword2long; read_frames nframes

unfoldable pub read_arg_list : ℕ → Reader (List (Bytes × Bytes))
read_arg_list zero = pure []
read_arg_list (suc n) = do
  name ← read_stringa
  value ← read_stringa
  rest ← read_arg_list n
  pure ((name, value) ∷ rest)

unfoldable pub read_fargs : Reader (List (Bytes × Bytes))
read_fargs = do argc ← read_dword; read_arg_list argc

unfoldable pub read_hinfo : Reader Hinfo
read_hinfo = do
  heap_bottom ← read_pointer
  heap_top ← read_pointer
  arena ← read_dword
  ordblks ← read_dword
  smblks ← read_dword
  hblks ← read_dword
  hblkhd ← read_dword
  usmblks ← read_dword
  fsmblks ← read_dword
  uordblks ← read_dword
  fordblks ← read_dword
  keepcost ← read_dword
  pure (record {
    heap_bottom = heap_bottom;
    heap_top = heap_top;
    lowest_block = 0;
    highest_block = 0;
    arena = arena;
    ordblks = ordblks;
    smblks = smblks;
    hblks = hblks;
    hblkhd = hblkhd;
    usmblks = usmblks;
    fsmblks = fsmblks;
    uordblks = uordblks;
    fordblks = fordblks;
    keepcost = keepcost;
  })
