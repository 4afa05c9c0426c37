-- ===== src/Modules/Shmposix/Mapped.antt =====
-- A mapping is reported as freed with the resource type with which it was reported as allocated.
use sp_rtrace.Prelude.{
  ℕ, ◌+◌, ◌^◌, ◌<◌, Bool, true, false, List, [], ◌∷◌, some, ◌==◌, ◌≡◌, refl, not, ◌||◌, ◌&&◌,
  if◌then◌else◌, arith, Bool-cases, inl, inr, length,
}
use sp_rtrace.Proto.Memory.{Bytes}
use sp_rtrace.Modules.File.Calls.{Mode}
use sp_rtrace.Postproc.Leaks.{type_free}
use sp_rtrace.Modules.File.State.{Written, is_negative}
use sp_rtrace.Modules.Shmposix.Distinct.{IsDistinct}
use sp_rtrace.Modules.Shmposix.Trace.{
  Shm, ShmIds, get_node, put_node, fdreg_get_fd, addr_get, map_failed, mapping_type, trace_mmap,
  trace_munmap, Use, shm_open, open_file, mmap,
}

pub get_node-put_node :
    {A : Type 0} (i j : ℕ) (a : A) (l : List (ℕ × A))
    → get_node i (put_node j a l) ≡ (if j == i then some a else get_node i l)
unfolding get_node put_node
get_node-put_node i j a [] = refl
get_node-put_node i j a ((k, b) ∷ l) = elim (Bool-cases (k == j)) [
  | inl here ↦ rw here (elim (Bool-cases (j == i)) [
    | inl same ↦ (let e : (k == i) ≡ true = ground (arith, here, same) in rw (e, same))
    | inr other ↦ (let e : (k == i) ≡ false = ground (arith, here, other) in rw (e, other))
  ])
  | inr there ↦ rw there (elim (Bool-cases (k == i)) [
    | inl same ↦ (let e : (j == i) ≡ false = ground (arith, there, same) in rw (same, e))
    | inr other ↦ rw other (get_node-put_node i j a l)
  ])
]

-- The type of each reported call, and the resource type and the number of its resource.
unfoldable pub resources : List Written → List (ℕ × ℕ × ℕ)
resources [] = []
resources ((call, args) ∷ calls) = (call.type, call.res_type_id, call.res_id) ∷ resources calls

-- There is room for `n` more names.
pub record IsRoomy (n : ℕ) (s : Shm) : Type 0 where
  pub distinct : IsDistinct s.names
  pub room : length s.names + n < 2 ^ 32

module _ (ids : ShmIds) (addr fd type : ℕ) where
  -- The address is that of a mapping of the descriptor, which has the type.
  record IsMapped (s : Shm) : Type 0 where
    mapped : addr_get addr s ≡ some fd
    typed : mapping_type ids (fdreg_get_fd fd s) ≡ type

  -- The address is not mapped anew, and the descriptor not opened for another type.
  unfoldable pub spares : Use → Bool
  spares (shm_open name oflag mode rc) = is_negative rc || not (rc == fd) || ids.res_pshmmap == type
  spares (open_file locks pathname flags rc) =
      is_negative rc || not (rc == fd) || ids.res_fshmmap == type
  spares (mmap name length prot flags fd' offset rc) = rc == map_failed || not (rc == addr)
  spares u = true

  unfoldable pub all_spare : List (Mode × Use) → Bool
  all_spare [] = true
  all_spare ((m, u) ∷ us) = spares u && all_spare us

  abbrev Stays : ℕ → Shm × List Written → Type 0
  Stays n (s, calls) = IsRoomy n s × IsMapped s

module _ (ids : ShmIds) (name : Bytes) (size prot flags fd offset addr : ℕ) where
  abbrev pub mapping : Shm → Shm × List Written
  mapping s = trace_mmap ids name size prot flags fd offset addr s

  abbrev pub Frees : ℕ → ℕ → ℕ → Shm × List Written → Type 0
  Frees type freed rc (t, calls) =
      resources (trace_munmap ids addr freed rc t) ≡ (type_free, type, addr) ∷ []
