-- ===== src/Modules/Shmsysv.antt =====
-- The tracing functions of src/modules/sp_rtrace_shmsysv.c with the table of attached addresses,
-- each with the answers of the original functions. The hash table is a list of its nodes.
pub mod Attached
use sp_rtrace.Prelude.{
  ℕ, ◌-◌, ◌%◌, ◌^◌, Bool, true, false, List, [], ◌∷◌, ◌++◌, Option, none, some, ◌==◌, not, ◌&&◌,
  if◌then◌else◌, bit_and,
}
use sp_rtrace.Prelude.Print.{codes, hex_0x, decimal}
use sp_rtrace.Proto.Memory.{Bytes}
use sp_rtrace.Proto.Read.{sign_extend}
use sp_rtrace.Postproc.Leaks.{type_alloc, type_free}
use sp_rtrace.Modules.Memory.{fcall}
use sp_rtrace.Modules.File.State.{Written}
use sp_rtrace.Modules.File.Common.{arg}
use sp_rtrace.Modules.Shmposix.Trace.{get_node, put_node, map_failed}

-- What the module reads of `struct shmid_ds`; `none` where IPC_STAT fails.
pub record ShmidDs : Type 0 where
  pub shm_cpid : ℕ
  pub shm_nattch : ℕ
  pub shm_segsz : ℕ
  pub mode : ℕ

pub record SysvIds : Type 0 where
  pub res_segment : ℕ
  pub res_address : ℕ
  pub res_control : ℕ

-- `addr2shmid`.
abbrev pub Addrs : Type 0
Addrs = List (ℕ × ℕ)

unfoldable pub remove_node : ℕ → Addrs → Addrs
remove_node addr [] = []
remove_node addr ((a, shmid) ∷ nodes) =
    let rest = remove_node addr nodes in if a == addr then rest else (a, shmid) ∷ rest

-- -1 as an int.
abbrev pub minus_one : ℕ
minus_one = 2 ^ 32 - 1

abbrev ipc_rmid : ℕ
ipc_rmid = 0

unfoldable pub own : ℕ → Option ShmidDs → Bool
own pid none = false
own pid (some ds) = ds.shm_cpid == pid

-- `nattach` of `trace_shmctl` and of `trace_shmdt`.
unfoldable pub nattach_own : ℕ → Option ShmidDs → ℕ
nattach_own pid none = minus_one
nattach_own pid (some ds) = if ds.shm_cpid == pid then ds.shm_nattch % 2 ^ 32 else minus_one

unfoldable pub nattach_dest : Option ShmidDs → ℕ
nattach_dest none = minus_one
nattach_dest (some ds) =
    if not (bit_and ds.mode 0x200 == 0) then ds.shm_nattch % 2 ^ 32 else minus_one

unfoldable pub cpid_text : Option ShmidDs → Bytes
cpid_text none = []
cpid_text (some ds) = decimal ds.shm_cpid

unfoldable pub segment_size : Option ShmidDs → ℕ
segment_size none = 1
segment_size (some ds) = ds.shm_segsz

module _ (ids : SysvIds) (pid : ℕ) where
  unfoldable pub trace_shmget : ℕ → ℕ → ℕ → List Written
  trace_shmget size shmflg rc =
      if not (rc == minus_one) && not (bit_and shmflg 0x200 == 0)
      then (fcall ids.res_segment type_alloc (codes "shmget") size (sign_extend rc), []) ∷ []
      else []

  unfoldable pub trace_shmctl : ℕ → ℕ → Option ShmidDs → ℕ → List Written
  trace_shmctl shmid cmd ds rc =
      let removes = cmd == ipc_rmid in
      let nattach = if removes then nattach_own pid ds else minus_one in
      let control : List Written =
        (
          fcall ids.res_control type_free (codes "shmctl") 0 (sign_extend shmid),
          arg "cmd" (codes "IPC_RMID") ∷ [],
        )
        ∷ [] in
      let segment : List Written =
        (fcall ids.res_segment type_free (codes "shmctl") 0 (sign_extend shmid), []) ∷ [] in
      (if removes then control else [])
      ++ (if not (rc == minus_one) && nattach == 0 then segment else [])

  unfoldable pub trace_shmat : ℕ → Option ShmidDs → ℕ → Addrs → Addrs × List Written
  trace_shmat shmid ds rc addrs = if rc == map_failed then (addrs, []) else (
    (if own pid ds then put_node rc shmid addrs else addrs),
    (
      fcall ids.res_address type_alloc (codes "shmat") (segment_size ds) rc,
      arg "shmid" (hex_0x shmid) ∷ arg "cpid" (cpid_text ds) ∷ [],
    )
        ∷ [],
  )

  -- The segment and how often it is attached, where it is found and to be destroyed.
  unfoldable pub found_attached : Option ℕ → Option ShmidDs → ℕ × ℕ
  found_attached none ds = (0, minus_one)
  found_attached (some shmid) ds = (shmid, nattach_dest ds)

  unfoldable pub detached : ℕ → ℕ → ℕ × ℕ → List Written
  detached shmaddr rc (shmid, nattach) =
      let segment : List Written =
        (fcall ids.res_segment type_free (codes "shmdt") 0 (sign_extend shmid), []) ∷ [] in
      if rc == 0
      then (fcall ids.res_address type_free (codes "shmdt") 0 shmaddr, [])
        ∷ (if nattach == 1 then segment else [])
      else []

  -- The node is removed also where the original function fails.
  unfoldable pub trace_shmdt : ℕ → Option ShmidDs → ℕ → Addrs → Addrs × List Written
  trace_shmdt shmaddr ds rc addrs =
      (remove_node shmaddr addrs, detached shmaddr rc (found_attached (get_node shmaddr addrs) ds))

-- A traced call with the answers of the original functions.
pub data Use : Type 0 where
  shmget : (size shmflg rc : ℕ) → Use
  shmctl : (shmid cmd : ℕ) (ds : Option ShmidDs) (rc : ℕ) → Use
  shmat : (shmid : ℕ) (ds : Option ShmidDs) (rc : ℕ) → Use
  shmdt : (shmaddr : ℕ) (ds : Option ShmidDs) (rc : ℕ) → Use

unfoldable pub reports : SysvIds → ℕ → Use → Addrs → Addrs × List Written
reports ids pid (shmget size shmflg rc) addrs = (addrs, trace_shmget ids pid size shmflg rc)
reports ids pid (shmctl shmid cmd ds rc) addrs = (addrs, trace_shmctl ids pid shmid cmd ds rc)
reports ids pid (shmat shmid ds rc) addrs = trace_shmat ids pid shmid ds rc addrs
reports ids pid (shmdt shmaddr ds rc) addrs = trace_shmdt ids pid shmaddr ds rc addrs

unfoldable pub reports_all : SysvIds → ℕ → List Use → Addrs → Addrs × List Written
reports_all ids pid [] addrs = (addrs, [])
reports_all ids pid (u ∷ us) addrs =
    let (next, calls) = reports ids pid u addrs in
    let (end, more) = reports_all ids pid us next in (end, calls ++ more)
