-- ===== src/Modules/Shmposix/Trace.antt =====
-- The tracing functions of src/modules/sp_rtrace_shmposix.c with its registries of descriptors and
-- of mapped addresses, each with the answer of the original function. A descriptor that is printed is
-- not negative: without MAP_ANONYMOUS a mapping has one.
use sp_rtrace.Prelude.{
  ℕ, ◌-◌, ◌^◌, Bool, List, [], ◌∷◌, ◌++◌, Option, none, some, ◌==◌, bit_and, not, ◌&&◌,
  if◌then◌else◌, take,
}
use sp_rtrace.Prelude.Print.{codes, digits, hex_0x, decimal}
use sp_rtrace.Proto.Memory.{Bytes}
use sp_rtrace.Proto.Read.{sign_extend}
use sp_rtrace.Tracer.Call.{Farg}
use sp_rtrace.Postproc.Leaks.{type_alloc, type_free}
use sp_rtrace.Modules.Memory.{fcall}
use sp_rtrace.Modules.File.State.{Written, is_negative}
use sp_rtrace.Modules.File.Calls.{Mode}
use sp_rtrace.Modules.File.Common.{arg}
use sp_rtrace.Modules.Shmposix.Names.{Names, nreg_get_hash}

-- FD_UNKNOWN, which no function stores, is left out.
pub data DescType : Type 0 where
  fd_posix fd_file : DescType

-- `fdreg_node_t` without the descriptor, which is the key.
pub record FdNode : Type 0 where
  pub type : DescType
  pub name : Bytes
  pub mode : ℕ

-- The trees `nreg_root`, `fdreg_root` and `addr_root`, as lists.
pub record Shm : Type 0 where
  pub names : Names
  pub fds : List (ℕ × FdNode)
  pub addrs : List (ℕ × ℕ)

pub record ShmIds : Type 0 where
  pub res_pshmmap : ℕ
  pub res_fshmmap : ℕ
  pub res_shmmap : ℕ
  pub res_pshmobj : ℕ
  pub res_pshmfd : ℕ

module _ {A : Type 0} where
  -- `tfind`, and a new or overwritten node.
  unfoldable pub get_node : ℕ → List (ℕ × A) → Option A
  get_node key [] = none
  get_node key ((k, a) ∷ nodes) = if k == key then some a else get_node key nodes

  unfoldable pub put_node : ℕ → A → List (ℕ × A) → List (ℕ × A)
  put_node key a [] = (key, a) ∷ []
  put_node key a ((k, b) ∷ nodes) =
      if k == key then (k, a) ∷ nodes else (k, b) ∷ put_node key a nodes

unfoldable pub fdreg_store_fd : ℕ → Bytes → DescType → ℕ → Shm → Shm
fdreg_store_fd fd name type mode s = record s {
  fds = put_node fd (record { type = type; name = name; mode = mode }) s.fds;
}

unfoldable pub fdreg_get_fd : ℕ → Shm → Option FdNode
fdreg_get_fd fd s = get_node fd s.fds

unfoldable pub addr_store : ℕ → ℕ → Shm → Shm
addr_store addr fd s = record s { addrs = put_node addr fd s.addrs }

unfoldable pub addr_get : ℕ → Shm → Option ℕ
addr_get addr s = get_node addr s.addrs

-- `snprintf` of a long into 16 bytes.
unfoldable pub long_hex : ℕ → Bytes
long_hex value = take 15 (b'0' ∷ b'x' ∷ digits 16 16 value [])

abbrev pub map_failed : ℕ
map_failed = 2 ^ 64 - 1

abbrev pub is_created : ℕ → Bool
is_created oflag = not (bit_and oflag 0x40 == 0)

abbrev pub is_anonymous : ℕ → Bool
is_anonymous flags = not (bit_and flags 0x20 == 0)

module _ (ids : ShmIds) where
  unfoldable pub mapping_type : Option FdNode → ℕ
  mapping_type none = ids.res_shmmap
  mapping_type (some node) = elim node.type [
    | fd_posix ↦ ids.res_pshmmap
    | fd_file ↦ ids.res_fshmmap
  ]

  abbrev pub open_args : Bytes → ℕ → ℕ → List Farg
  open_args name oflag mode =
      arg "name" name ∷ arg "oflag" (hex_0x oflag) ∷ arg "mode" (hex_0x mode) ∷ []

  abbrev pub object :
      ℕ
      → ℕ
      → Bytes
      → List Farg
      → Option (ℕ × Names)
      → Shm
      → List Written
      → Option (Shm × List Written)
  object type size name args none s more = none
  object type size name args (some (hash, names)) s more =
      some (record s { names = names }, (fcall ids.res_pshmobj type name size hash, args) ∷ more)

  abbrev pub shm_opened : Bytes → ℕ → ℕ → ℕ → List Written
  shm_opened name oflag mode rc =
      (
        fcall ids.res_pshmfd type_alloc (codes "shm_open") 1 (sign_extend rc),
        open_args name oflag mode,
      )
      ∷ []

  unfoldable pub trace_shm_open : Bytes → ℕ → ℕ → ℕ → Shm → Option (Shm × List Written)
  trace_shm_open name oflag mode rc s =
      let t = fdreg_store_fd rc name fd_posix oflag s in
      let opened = shm_opened name oflag mode rc in
      if is_negative rc
      then some (s, [])
      else if is_created oflag
      then object type_alloc 1 (codes "shm_open") (open_args name oflag mode)
          (nreg_get_hash name t.names) t opened
      else some (t, opened)

  unfoldable pub trace_shm_unlink : Bytes → ℕ → Shm → Option (Shm × List Written)
  trace_shm_unlink name rc s =
      if is_negative rc
      then some (s, [])
      else object type_free 0 (codes "shm_unlink") (arg "name" name ∷ [])
          (nreg_get_hash name s.names) s []

  -- `open`, `open64` and `creat` only register the descriptor.
  unfoldable pub trace_open_file : Bytes → ℕ → ℕ → Shm → Shm
  trace_open_file pathname flags rc s =
      if is_negative rc then s else fdreg_store_fd rc pathname fd_file flags s

  unfoldable pub fd_args : ℕ → ℕ → Option FdNode → List Farg
  fd_args fd offset none = arg "fd" (decimal fd) ∷ arg "offset" (long_hex offset) ∷ []
  fd_args fd offset (some node) =
      arg "fd" (decimal fd)
      ∷ arg "offset" (long_hex offset)
      ∷ arg "name" node.name
      ∷ arg "mode" (hex_0x node.mode)
      ∷ []

  unfoldable pub trace_mmap_common : Bytes → ℕ → ℕ → ℕ → ℕ → ℕ → ℕ → Shm → Shm × List Written
  trace_mmap_common name rc length prot flags fd offset s =
      let pfd = fdreg_get_fd fd s in
      (
        addr_store rc fd s,
        (
          fcall (mapping_type pfd) type_alloc name length rc,
          arg "length" (long_hex length)
              ∷ arg "prot" (hex_0x prot)
              ∷ arg "flags" (hex_0x flags)
              ∷ (if is_anonymous flags then [] else fd_args fd offset pfd),
        )
            ∷ [],
      )

  -- `mmap` and `mmap64`, by their names.
  unfoldable pub trace_mmap : Bytes → ℕ → ℕ → ℕ → ℕ → ℕ → ℕ → Shm → Shm × List Written
  trace_mmap name length prot flags fd offset rc s =
      if rc == map_failed then (s, []) else trace_mmap_common name rc length prot flags fd offset s

  abbrev fd_of : Option ℕ → Shm → Option FdNode
  fd_of none s = none
  fd_of (some fd) s = fdreg_get_fd fd s

  unfoldable pub trace_munmap : ℕ → ℕ → ℕ → Shm → List Written
  trace_munmap addr length rc s =
      let pfd = fd_of (addr_get addr s) s in
      if is_negative rc
      then []
      else (
        fcall (mapping_type pfd) type_free (codes "munmap") 0 addr,
        arg "length" (long_hex length) ∷ [],
      )
        ∷ []

  unfoldable pub close_report : ℕ → Option FdNode → List Written
  close_report fd none = []
  close_report fd (some node) = elim node.type [
    | fd_posix ↦ (fcall ids.res_pshmfd type_free (codes "close") 0 (sign_extend fd), []) ∷ []
    | fd_file ↦ []
  ]

  -- The descriptor stays registered, as DO_CLEANUP is 0.
  unfoldable pub trace_close : ℕ → ℕ → Shm → List Written
  trace_close fd rc s = if is_negative rc then [] else close_report fd (fdreg_get_fd fd s)

-- A traced call with the answer of the original function.
pub data Use : Type 0 where
  shm_open : (name : Bytes) (oflag mode rc : ℕ) → Use
  shm_unlink : (name : Bytes) (rc : ℕ) → Use
  -- `creat` does not look at the lock.
  open_file : (locks : Bool) (pathname : Bytes) (flags rc : ℕ) → Use
  mmap : (name : Bytes) (length prot flags fd offset rc : ℕ) → Use
  munmap : (addr length rc : ℕ) → Use
  close : (fd rc : ℕ) → Use

-- `trace_on`
unfoldable pub trace_use : ShmIds → Use → Shm → Option (Shm × List Written)
trace_use ids (shm_open name oflag mode rc) s = trace_shm_open ids name oflag mode rc s
trace_use ids (shm_unlink name rc) s = trace_shm_unlink ids name rc s
trace_use ids (open_file locks pathname flags rc) s =
    some (trace_open_file ids pathname flags rc s, [])
trace_use ids (mmap name length prot flags fd offset rc) s =
    some (trace_mmap ids name length prot flags fd offset rc s)
trace_use ids (munmap addr length rc) s = some (s, trace_munmap ids addr length rc s)
trace_use ids (close fd rc) s = some (s, trace_close ids fd rc s)

-- Whether a call reaches the tracing function: through `trace_rt`, and for `open`, `open64` and
-- `close` by BT_EXECUTE_LOCKED, which sends a call from inside `backtrace` to the original function.
unfoldable pub is_traced : Mode → Use → Bool
is_traced m (shm_open name oflag mode rc) = m.tracing
is_traced m (shm_unlink name rc) = m.tracing
is_traced m (open_file locks pathname flags rc) = m.tracing && not (locks && m.backtrace_lock)
is_traced m (mmap name length prot flags fd offset rc) = m.tracing
is_traced m (munmap addr length rc) = m.tracing
is_traced m (close fd rc) = m.tracing && not m.backtrace_lock

unfoldable pub reports : ShmIds → Mode × Use → Shm → Option (Shm × List Written)
reports ids (m, u) s = if is_traced m u then trace_use ids u s else some (s, [])

abbrev pub and_reports : List Written → Option (Shm × List Written) → Option (Shm × List Written)
and_reports calls none = none
and_reports calls (some (s, more)) = some (s, calls ++ more)

unfoldable pub reports_all : ShmIds → List (Mode × Use) → Shm → Option (Shm × List Written)
reports_all ids [] s = some (s, [])
reports_all ids (u ∷ us) s = elim (reports ids u s) [
  | none ↦ none
  | some (t, calls) ↦ and_reports calls (reports_all ids us t)
]
