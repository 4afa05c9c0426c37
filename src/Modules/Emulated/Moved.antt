-- ===== src/Modules/Emulated/Moved.antt =====
-- `emu_realloc` keeps what the block holds.
use sp_rtrace.Prelude.{
  ℕ, ◌+◌, ◌-◌, ◌%◌, ◌^◌, ◌≤◌, ◌<◌, true, false, List, [], ◌∷◌, some, ◌==◌, ◌≡◌, ap, ◌∙◌, sym, subst,
  ltb, not, ◌&&◌, if◌then◌else◌, arith, Bool-cases, inl, inr, All, min,
}
use sp_rtrace.Proto.Memory.{Mem}
use sp_rtrace.Modules.Emulated.{
  Emulated, read_int, aligned, emu_alloc_mem, emu_free, emu_realloc, copy,
}
use sp_rtrace.Modules.Emulated.Ready.{
  top, Allocated, emu_alloc_mem-Allocated, write_int_outside, read-write_int,
}
use sp_rtrace.Modules.Emulated.Blocks.{Block, is_block, IsSized, IsHeap, block_bounds}
use sp_rtrace.Modules.Emulated.Steps.{free-IsHeap}
use sp_rtrace.Modules.Emulated.Requests.{IfRuns, copy_inside}

pub block_size :
    (m : Mem) (p n : ℕ) (live : List Block)
    → is_block p n live ≡ true
    → All (IsSized m) live
    → read_int m (p - 4) ≡ n + 4
unfolding is_block
block_size m p n [] h a = cc
block_size m p n ((q, k) ∷ live) h a = elim (Bool-cases (q == p && k == n)) [
  | inl here ↦
      (let e : q ≡ p = ground (arith, here) in
        let f : k ≡ n = ground (arith, here) in
        ap (λ x. read_int m (x - 4)) (sym e) ∙ a.0 ∙ ap (λ x. x + 4) f)
  | inr there ↦ block_size m p n live (ground (arith, there, h)) a.1
]

-- The bytes of the block, as far as both sizes go, are those of the new one.
abbrev pub Keeps : Emulated → ℕ → ℕ → ℕ × Emulated → Type 0
Keeps s ptr n (new, t) = (i : ℕ) → i < n → t.memory (new + i) ≡ s.memory (ptr + i)

-- The last block is taken again where it is.
again :
    (heap ptr size : ℕ) (s : Emulated)
    → ptr % 8 ≡ 0
    → s.tail + 4 ≡ ptr
    → aligned 8 ((emu_free ptr s).tail + read_int (emu_free ptr s).memory (emu_free ptr s).tail + 4)
      ≡ ptr
unfolding emu_free aligned
again heap ptr size s even last =
    let here : (s.tail + 4 == ptr) ≡ true = ground (arith, last) in
    let header = read-write_int s.memory s.tail 0 (omega arith) in
    rw here (ground (arith, header, even, last))

alloc_at :
    (heap size align : ℕ) (s : Emulated) (ptr : ℕ) (t : Emulated)
    → emu_alloc_mem heap size align s ≡ some (ptr, t)
    → ptr ≡ aligned align (s.tail + read_int s.memory s.tail + 4)
unfolding emu_alloc_mem
alloc_at heap size align s ptr t e = ground (arith, e)

-- Where the last block is moved, it stays where it is.
stays :
    (heap ptr n size : ℕ) (s : Emulated) (new : ℕ) (t : Emulated)
    → ptr % 8 ≡ 0
    → s.tail + 4 ≡ ptr
    → emu_alloc_mem heap size 8 (emu_free ptr s) ≡ some (new, t)
    → Allocated heap size 8 (emu_free ptr s) new t
    → (new ≡ ptr) × Keeps s ptr n (new, t)
stays heap ptr n size s new t even last e a =
    let same = alloc_at heap size 8 (emu_free ptr s) new t e ∙ again heap ptr size s even last in
    let here : (s.tail + 4 == ptr) ≡ true = ground (arith, last) in
    (
      same,
      λ i lt.
          a.kept (new + i) (inr (omega (arith, a.last)))
          ∙ ap (λ x. (emu_free ptr s).memory (x + i)) same
          ∙ (unfold emu_free in
              rw here (write_int_outside s.memory s.tail 0 (ptr + i) (inr (omega (arith, last))))),
    )

-- Another block is copied to the new place, behind all others.
moves :
    (heap ptr n size k : ℕ) (s : Emulated) (new : ℕ) (t : Emulated)
    → ptr + n ≤ top s
    → k ≤ n + 4
    → Allocated heap size 8 s new t
    → min n size ≤ k
    → Keeps s ptr (min n size) (new, record t { memory = copy k new ptr t.memory })
moves heap ptr n size k s new t high few a enough i lt =
    let behind = a.behind in
    let last = a.last in
    copy_inside k new ptr t.memory i (omega (arith, behind)) (omega arith)
    ∙ a.kept (ptr + i) (inl (omega (arith, behind, last)))

-- For a block of the program and a size below 2 ^ 31, unless the process ends, `emu_realloc` gives
-- a block whose first bytes, as far as both sizes go, are those of the old one, whether it stays
-- where it is or is moved.
pub emu_realloc-Keeps :
    (heap ptr n size : ℕ) (s : Emulated) (live : List Block)
    → IsHeap heap live s
    → is_block ptr n live ≡ true
    → size < 2 ^ 31
    → IfRuns (Keeps s ptr (min n size)) (emu_realloc heap ptr size s)
unfolding emu_realloc
emu_realloc-Keeps heap ptr n size s live v h lt =
    let w = free-IsHeap heap ptr s live v in
    let (low, even, high) = block_bounds heap (top s) ptr n live v.stack h in
    let chunk = block_size s.memory ptr n live h v.sized in
    elim (emu_alloc_mem-Allocated heap size 8 (emu_free ptr s) w.ready (omega arith) (omega arith)
      lt) [
        | inl ends ↦ rw ends tt
        | inr (new, t, e, a) ↦ elim (Bool-cases (s.tail + 4 == ptr)) [
          | inl last ↦
              (let (same, keeps) =
                  stays heap ptr (min n size) size s new t even (ground (arith, last)) e a in
                let here : (new == ptr) ≡ true = ground (arith, same) in
                let skips : (not (new == 0) && not (new == ptr)) ≡ false = ground (arith, here) in
                rw (e, skips) keeps)
          | inr other ↦
              (let unchanged : emu_free ptr s ≡ s = unfold emu_free in rw other in
                let b = subst (λ u. Allocated heap size 8 u new t) unchanged a in
                let behind = b.behind in
                let differs : (not (new == 0) && not (new == ptr)) ≡ true =
                  ground (arith, behind, high) in
                let pos : (ptr == 0) ≡ false = ground (arith, low) in
                let k = if ltb (n + 4) size then n + 4 else size in
                rw (e, differs, pos, chunk)
                  (moves heap ptr n size k s new t high (ground arith) b (ground arith)))
        ]
      ]
