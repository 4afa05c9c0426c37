-- ===== src/Modules/Shmsysv/Attached.antt =====
-- The detaching of an address, by what the calls before it attached there.
use sp_rtrace.Prelude.{
  ℕ, ◌%◌, ◌^◌, Bool, false, List, [], ◌∷◌, Option, none, some, ◌==◌, ◌≡◌, refl, ap, ◌∙◌, not, ◌&&◌,
  if◌then◌else◌, arith, Bool-cases, inl, inr,
}
use sp_rtrace.Prelude.Bits.{bit, power, test-bit_and}
use sp_rtrace.Postproc.Leaks.{type_free}
use sp_rtrace.Proto.Read.{sign_extend}
use sp_rtrace.Modules.Shmposix.Trace.{get_node, map_failed}
use sp_rtrace.Modules.Shmposix.Mapped.{get_node-put_node, resources}
use sp_rtrace.Modules.Shmsysv.{
  ShmidDs, SysvIds, Addrs, remove_node, own, nattach_dest, trace_shmat, trace_shmdt, found_attached,
  detached, Use, shmget, shmctl, shmat, shmdt, reports, reports_all,
}

get_node-remove_node :
    (i j : ℕ) (l : Addrs) → get_node i (remove_node j l) ≡ (if j == i then none else get_node i l)
unfolding get_node remove_node
get_node-remove_node i j [] = elim (Bool-cases (j == i)) [
  | inl same ↦ rw same refl
  | inr other ↦ rw other refl
]
get_node-remove_node i j ((k, b) ∷ l) = elim (Bool-cases (k == j)) [
  | inl here ↦ elim (Bool-cases (j == i)) [
    | inl same ↦ rw here (get_node-remove_node i j l ∙ rw same refl)
    | inr other ↦
        (let e : (k == i) ≡ false = ground (arith, here, other) in
          rw (here, e) (get_node-remove_node i j l))
  ]
  | inr there ↦ elim (Bool-cases (k == i)) [
    | inl same ↦
        (let e : (j == i) ≡ false = ground (arith, there, same) in rw (there, same, e) refl)
    | inr other ↦ rw (there, other) (get_node-remove_node i j l)
  ]
]

module _ (pid addr : ℕ) where
  -- The segment of the process that is attached at the address after a call, where `before` was.
  unfoldable pub then_attached : Use → Option ℕ → Option ℕ
  then_attached (shmat shmid (some ds) rc) before =
      if not (rc == map_failed) && (rc == addr && ds.shm_cpid == pid) then some shmid else before
  then_attached (shmdt shmaddr ds rc) before = if shmaddr == addr then none else before
  then_attached u before = before

  unfoldable pub attached : List Use → Option ℕ → Option ℕ
  attached [] before = before
  attached (u ∷ us) before = attached us (then_attached u before)

  reports-attached :
      (ids : SysvIds) (u : Use) (addrs : Addrs)
      → get_node addr (reports ids pid u addrs).0 ≡ then_attached u (get_node addr addrs)
  unfolding reports then_attached trace_shmat trace_shmdt own
  reports-attached ids (shmget size shmflg rc) addrs = refl
  reports-attached ids (shmctl shmid cmd ds rc) addrs = refl
  reports-attached ids (shmat shmid none rc) addrs = elim (Bool-cases (rc == map_failed)) [
    | inl failed ↦ rw failed refl
    | inr done ↦ rw done refl
  ]
  reports-attached ids (shmat shmid (some ds) rc) addrs = elim (Bool-cases (rc == map_failed)) [
    | inl failed ↦ rw failed refl
    | inr done ↦ elim (Bool-cases (ds.shm_cpid == pid)) [
      | inl mine ↦ elim (Bool-cases (rc == addr)) [
        | inl same ↦ rw (done, mine, same) (get_node-put_node addr rc shmid addrs ∙ rw same refl)
        | inr other ↦ rw (done, mine, other) (get_node-put_node addr rc shmid addrs ∙ rw other refl)
      ]
      | inr theirs ↦ elim (Bool-cases (rc == addr)) [
        | inl same ↦ rw (done, theirs, same) refl
        | inr other ↦ rw (done, theirs, other) refl
      ]
    ]
  ]
  reports-attached ids (shmdt shmaddr ds rc) addrs = get_node-remove_node addr shmaddr addrs

  reports_all-attached :
      (ids : SysvIds) (us : List Use) (addrs : Addrs)
      → get_node addr (reports_all ids pid us addrs).0 ≡ attached us (get_node addr addrs)
  unfolding reports_all attached
  reports_all-attached ids [] addrs = refl
  reports_all-attached ids (u ∷ us) addrs =
      reports_all-attached ids us (reports ids pid u addrs).0
      ∙ ap (attached us) (reports-attached ids u addrs)

  -- The bit 9 is SHM_DEST.
  abbrev pub goes_with_last : Option ShmidDs → Bool
  goes_with_last none = false
  goes_with_last (some ds) = bit 9 ds.mode == 1 && ds.shm_nattch % 2 ^ 32 == 1

  -- What a successful detaching is to free behind the address.
  unfoldable pub frees : SysvIds → Option ℕ → Option ShmidDs → List (ℕ × ℕ × ℕ)
  frees ids none ds = []
  frees ids (some shmid) ds =
      if goes_with_last ds then (type_free, ids.res_segment, sign_extend shmid) ∷ [] else []

  nattach_dest-last : (ds : Option ShmidDs) → (nattach_dest ds == 1) ≡ goes_with_last ds
  unfolding nattach_dest power
  nattach_dest-last none = refl
  nattach_dest-last (some ds) = elim (Bool-cases (bit 9 ds.mode == 1)) [
    | inl marked ↦ rw (test-bit_and 9 ds.mode, marked) refl
    | inr unmarked ↦ rw (test-bit_and 9 ds.mode, unmarked) refl
  ]

  resources-detached :
      (ids : SysvIds) (o : Option ℕ) (ds : Option ShmidDs) (rc : ℕ)
      → resources (detached ids pid addr rc (found_attached ids pid o ds))
        ≡ (if rc == 0 then (type_free, ids.res_address, addr) ∷ frees ids o ds else [])
  unfolding detached found_attached resources frees
  resources-detached ids none ds rc = elim (Bool-cases (rc == 0)) [
    | inl done ↦ rw done refl
    | inr failed ↦ rw failed refl
  ]
  resources-detached ids (some shmid) ds rc = elim (Bool-cases (rc == 0)) [
    | inl done ↦ elim (Bool-cases (goes_with_last ds)) [
      | inl last ↦ rw (done, nattach_dest-last ds, last) refl
      | inr kept ↦ rw (done, nattach_dest-last ds, kept) refl
    ]
    | inr failed ↦ rw failed refl
  ]

  -- After any traced calls from an empty table, a successful shmdt of an address is reported as
  -- the freeing of the address, and then as the freeing of a segment exactly where one of those
  -- calls attached the address for a segment of the process, no shmdt of the address came after
  -- it, and IPC_STAT finds the segment marked for destruction with one attachment left; the
  -- segment is that of the last such call. A shmdt that fails is not reported.
  pub trace_shmdt-frees :
      (ids : SysvIds) (us : List Use) (ds : Option ShmidDs) (rc : ℕ)
      → resources (trace_shmdt ids pid addr ds rc (reports_all ids pid us []).0).1 ≡ (
          if rc == 0
          then (type_free, ids.res_address, addr) ∷ frees ids (attached us none) ds
          else [])
  unfolding trace_shmdt get_node
  trace_shmdt-frees ids us ds rc =
      ap (λ o. resources (detached ids pid addr rc (found_attached ids pid o ds)))
        (reports_all-attached ids us [])
      ∙ resources-detached ids (attached us none) ds rc
