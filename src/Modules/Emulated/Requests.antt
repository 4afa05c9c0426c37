-- ===== src/Modules/Emulated/Requests.antt =====
-- A program on the internal heap: its requests and its own stores.
use sp_rtrace.Prelude.{
  ℕ, zero, suc, ◌+◌, ◌-◌, ◌*◌, ◌%◌, ◌^◌, ◌≤◌, ◌<◌, Bool, true, false, List, ◌∷◌, Option, none, some,
  ◌==◌, ◌≡◌, refl, ap, ◌∙◌, sym, leb, ltb, ◌&&◌, if◌then◌else◌, arith, Bool-cases, inl, inr, ◌⊎◌,
  ==_self,
}
use sp_rtrace.Proto.Memory.{Mem}
use sp_rtrace.Modules.Emulated.{
  Emulated, emu_alloc_mem, emu_free, emu_malloc, emu_calloc, emu_realloc, emu_posix_memalign, clear,
  copy,
}
use sp_rtrace.Modules.Emulated.Ready.{emu_alloc_mem-Allocated}
use sp_rtrace.Modules.Emulated.Blocks.{Block, without, is_block, IsHeap}
use sp_rtrace.Modules.Emulated.Steps.{alloc-IsHeap}

pub clear_outside : (n p : ℕ) (m : Mem) (i : ℕ) → (i < p) ⊎ (p + n ≤ i) → clear n p m i ≡ m i
unfolding clear
clear_outside zero p m i h = refl
clear_outside (suc n) p m i h =
    ground (arith, clear_outside n (p + 1) (λ a. if a == p then 0 else m a) i)

pub copy_outside :
    (n dst src : ℕ) (m : Mem) (i : ℕ) → (i < dst) ⊎ (dst + n ≤ i) → copy n dst src m i ≡ m i
unfolding copy
copy_outside zero dst src m i h = refl
copy_outside (suc n) dst src m i h =
    ground (arith, copy_outside n (dst + 1) (src + 1) (λ a. if a == dst then m src else m a) i)

-- Where the source ends in front of the target, all bytes arrive.
pub copy_inside :
    (n dst src : ℕ) (m : Mem) (i : ℕ)
    → src + n ≤ dst
    → i < n
    → copy n dst src m (dst + i) ≡ m (src + i)
unfolding copy
copy_inside zero dst src m i h lt = absurd (omega arith)
copy_inside (suc n) dst src m i h lt =
    let m' : Mem = λ a. if a == dst then m src else m a in
    elim (Bool-cases (i == 0)) [
      | inl first ↦
          (let e : i ≡ 0 = ground (arith, first) in
            let p : dst + i ≡ dst = omega arith in
            let q : src + i ≡ src = omega arith in
            let before = copy_outside n (dst + 1) (src + 1) m' dst (inl (omega arith)) in
            let value : m' dst ≡ m src = rw (==_self dst) in
            ap (copy n (dst + 1) (src + 1) m') p ∙ before ∙ value ∙ ap m (sym q))
      | inr later ↦
          (let pos : 0 < i = ground (arith, later) in
            let p : dst + i ≡ dst + 1 + (i - 1) = omega arith in
            let q : src + 1 + (i - 1) ≡ src + i = omega arith in
            let rest = copy_inside n (dst + 1) (src + 1) m' (i - 1) (omega arith) (omega arith) in
            let other : (src + 1 + (i - 1) == dst) ≡ false = ground arith in
            let value : m' (src + 1 + (i - 1)) ≡ m (src + 1 + (i - 1)) = rw other in
            ap (copy n (dst + 1) (src + 1) m') p ∙ rest ∙ value ∙ ap m q)
    ]

-- `write`: the program stores a byte at a place of a block.
pub data Request : Type 0 where
  malloc : (size : ℕ) → Request
  calloc : (nmemb size : ℕ) → Request
  realloc : (ptr size : ℕ) → Request
  posix_memalign : (alignment size : ℕ) → Request
  free : (ptr : ℕ) → Request
  write : (ptr n i b : ℕ) → Request

-- The heap and the blocks that the program has.
abbrev pub Program : Type 0
Program = Emulated × List Block

abbrev pub with_block : ℕ → List Block → Option (ℕ × Emulated) → Option Program
with_block size live none = none
with_block size live (some (ptr, t)) = some (t, (ptr, size) ∷ live)

abbrev pub with_aligned : ℕ → List Block → Option (Option ℕ × Emulated) → Option Program
with_aligned size live none = none
with_aligned size live (some (none, t)) = some (t, live)
with_aligned size live (some (some ptr, t)) = some (t, (ptr, size) ∷ live)

unfoldable pub perform : ℕ → Request → Program → Option Program
perform heap (malloc size) (s, live) = with_block size live (emu_malloc heap size s)
perform heap (calloc nmemb size) (s, live) =
    with_block (nmemb * size) live (emu_calloc heap nmemb size s)
perform heap (realloc ptr size) (s, live) =
    with_block size (without ptr live) (emu_realloc heap ptr size s)
perform heap (posix_memalign alignment size) (s, live) =
    with_aligned size live (emu_posix_memalign heap alignment size s)
perform heap (free ptr) (s, live) = some (emu_free ptr s, without ptr live)
perform heap (write ptr n i b) (s, live) =
    some (record s { memory = λ a. if a == ptr + i then b else s.memory a }, live)

-- Sizes are below 2 ^ 31, alignments at most 2 ^ 32; what is moved is a block or null, and what is
-- stored lies in a block.
unfoldable pub is_proper : Request → List Block → Bool
is_proper (malloc size) live = ltb size (2 ^ 31)
is_proper (calloc nmemb size) live = ltb (nmemb * size) (2 ^ 31)
is_proper (realloc ptr size) live = ltb size (2 ^ 31)
is_proper (posix_memalign alignment size) live = ltb size (2 ^ 31) && leb alignment (2 ^ 32)
is_proper (free ptr) live = true
is_proper (write ptr n i b) live = is_block ptr n live && ltb i n

-- The process may end; otherwise `P` holds.
abbrev pub IfRuns : {A : Type 0} → (A → Type 0) → Option A → Type 0
IfRuns P none = Unit
IfRuns P (some a) = P a

abbrev pub Sound : ℕ → Program → Type 0
Sound heap (s, live) = IsHeap heap live s

pub fresh-Sound :
    (heap size align : ℕ) (s : Emulated) (live : List Block)
    → IsHeap heap live s
    → 0 < align
    → align ≤ 2 ^ 32
    → align % 8 ≡ 0
    → size < 2 ^ 31
    → IfRuns (Sound heap) (with_block size live (emu_alloc_mem heap size align s))
fresh-Sound heap size align s live v pos small even short =
    elim (emu_alloc_mem-Allocated heap size align s v.ready pos small short) [
      | inl ends ↦ rw ends tt
      | inr (ptr, t, e, a) ↦
          rw e (alloc-IsHeap heap size align s ptr t t.memory live v even a (λ i h. refl))
    ]
