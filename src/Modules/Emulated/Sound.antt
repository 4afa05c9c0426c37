-- ===== src/Modules/Emulated/Sound.antt =====
-- Every run of proper requests keeps the blocks apart, or ends the process.
use sp_rtrace.Prelude.{
  ℕ, ◌+◌, ◌-◌, ◌*◌, ◌%◌, ◌^◌, ◌≤◌, ◌<◌, Bool, true, false, List, [], ◌∷◌, Option, none, some, ◌==◌,
  ◌≡◌, refl, ap, ◌∙◌, sym, subst, leb, ltb, not, ◌&&◌, ◌||◌, if◌then◌else◌, arith, Bool-cases, inl,
  inr, ◌⊎◌, All, both_true, bit_and,
}
use sp_rtrace.Proto.Memory.{Mem}
use sp_rtrace.Modules.Memory.{emu_heap_size}
use sp_rtrace.Modules.Emulated.{
  Emulated, read_int, emu_free, emu_malloc, emu_calloc, emu_realloc, emu_posix_memalign, clear,
  copy,
}
use sp_rtrace.Modules.Emulated.Ready.{top, emu_alloc_mem-Allocated}
use sp_rtrace.Modules.Emulated.Blocks.{
  Block, Stack, without, is_block, IsSized, IsHeap, block_bounds, is_block-without, IsSized-kept,
}
use sp_rtrace.Modules.Emulated.Steps.{alloc-IsHeap, free-IsHeap}
use sp_rtrace.Modules.Emulated.Requests.{
  clear_outside, copy_outside, Request, malloc, calloc, realloc, posix_memalign, free, write,
  Program, perform, is_proper, IfRuns, Sound, fresh-Sound,
}

abbrev put_byte : ℕ → ℕ → Mem → Mem
put_byte a b m = λ j. if j == a then b else m j

-- A header is another place than the byte.
header_kept :
    (m : Mem) (a b p : ℕ) → (a < p) ⊎ (p + 4 ≤ a) → read_int (put_byte a b m) p ≡ read_int m p
unfolding read_int
header_kept m a b p h = ground arith

IsSized-write :
    (heap bound p n i b : ℕ) (m : Mem) (live : List Block)
    → Stack heap bound live
    → is_block p n live ≡ true
    → i < n
    → All (IsSized m) live
    → All (IsSized (put_byte (p + i) b m)) live
unfolding is_block
IsSized-write heap bound p n i b m [] s h lt a = tt
IsSized-write heap bound p n i b m ((q, k) ∷ live) s h lt a = elim (Bool-cases (q == p && k == n)) [
  | inl here ↦
      (let e : q ≡ p = ground (arith, here) in
        (
          header_kept m (p + i) b (q - 4) (inr (omega (arith, s.0, e))) ∙ a.0,
          IsSized-kept heap (q - 4) m (put_byte (p + i) b m) live
              (λ j below.
                let other : (j == p + i) ≡ false = ground (arith, below, e, s.0) in rw other)
              s.3 a.1,
        ))
  | inr there ↦
      (let inside : is_block p n live ≡ true = ground (arith, there, h) in
        let high = (block_bounds heap (q - 4) p n live s.3 inside).2 in
        (
          header_kept m (p + i) b (q - 4) (inl (omega (arith, high, lt))) ∙ a.0,
          IsSized-write heap (q - 4) p n i b m live s.3 inside lt a.1,
        ))
]

write-IsHeap :
    (heap p n i b : ℕ) (s : Emulated) (live : List Block)
    → IsHeap heap live s
    → is_block p n live ≡ true
    → i < n
    → IsHeap heap live (record s { memory = put_byte (p + i) b s.memory })
write-IsHeap heap p n i b s live v h lt =
    let tail : read_int (put_byte (p + i) b s.memory) s.tail ≡ read_int s.memory s.tail =
      header_kept s.memory (p + i) b s.tail (elim (Bool-cases (p == s.tail + 4)) [
        | inl last ↦ inr (ground (arith, last))
        | inr other ↦
            (let inside = is_block-without (s.tail + 4) p n live other h in
              let high =
                (block_bounds heap s.tail p n (without (s.tail + 4) live) v.below inside).2 in
              inl (omega (arith, high, lt)))
      ]) in
    let e : top (record s { memory = put_byte (p + i) b s.memory }) ≡ top s =
      ap (λ k. s.tail + k) tail in
    record {
      ready = record {
        low = v.ready.low;
        high = subst (λ k. k ≤ heap + emu_heap_size) (sym e) v.ready.high;
        address = v.ready.address;
      };
      stack = subst (λ k. Stack heap k live) (sym e) v.stack;
      below = v.below;
      sized = IsSized-write heap (top s) p n i b s.memory live v.stack h lt v.sized;
    }

perform-Sound :
    (heap : ℕ) (r : Request) (s : Emulated) (live : List Block)
    → is_proper r live ≡ true
    → IsHeap heap live s
    → IfRuns (Sound heap) (perform heap r (s, live))
unfolding perform is_proper emu_malloc emu_calloc emu_realloc emu_posix_memalign
perform-Sound heap (malloc size) s live h v =
    fresh-Sound heap size 8 s live v (omega arith) (omega arith) refl (ground (arith, h))
perform-Sound heap (calloc nmemb size) s live h v =
    let lt : nmemb * size < 2 ^ 31 = ground (arith, h) in
    let whole : (nmemb * size) % 2 ^ 32 ≡ nmemb * size = omega (arith, lt) in
    let positive : leb (2 ^ 31) (nmemb * size) ≡ false = ground (arith, lt) in
    elim (emu_alloc_mem-Allocated heap (nmemb * size) 8 s v.ready (omega arith) (omega arith) lt) [
      | inl ends ↦ rw (whole, positive, ends) tt
      | inr (ptr, t, e, a) ↦
          rw (whole, positive, e)
            (alloc-IsHeap heap (nmemb * size) 8 s ptr t (clear (nmemb * size) ptr t.memory) live v
              refl a (λ i low. clear_outside (nmemb * size) ptr t.memory i (inl low)))
    ]
perform-Sound heap (realloc ptr size) s live h v =
    let lt : size < 2 ^ 31 = ground (arith, h) in
    let w = free-IsHeap heap ptr s live v in
    elim (emu_alloc_mem-Allocated heap size 8 (emu_free ptr s) w.ready (omega arith) (omega arith)
      lt) [
        | inl ends ↦ rw ends tt
        | inr (new, t, e, a) ↦ rw e (elim (Bool-cases (not (new == 0) && not (new == ptr))) [
          | inl moved ↦ rw moved (
              alloc-IsHeap heap size 8 (emu_free ptr s) new t (copy _ new ptr t.memory)
                (without ptr live) w refl a (λ i low. copy_outside _ new ptr t.memory i (inl low)))
          | inr stays ↦ rw stays (
              alloc-IsHeap heap size 8 (emu_free ptr s) new t t.memory (without ptr live) w refl a
                (λ i low. refl))
        ])
      ]
perform-Sound heap (posix_memalign alignment size) s live h v =
    let (short, small) = both_true (ltb size (2 ^ 31)) (leb alignment (2 ^ 32)) h in
    let rounded = if ltb alignment 8 then 8 else alignment in
    let invalid =
      not (alignment % 8 == 0) || not (bit_and (alignment - 1) alignment == 0) || alignment == 0 in
    elim (Bool-cases invalid) [
      | inl refused ↦ rw refused v
      | inr taken ↦
          (let even : rounded % 8 ≡ 0 = ground (arith, taken) in
            let bound : rounded ≤ 2 ^ 32 = ground (arith, small) in
            rw taken
              (elim (emu_alloc_mem-Allocated heap size rounded s v.ready (ground arith) bound
                (ground (arith, short))) [
                  | inl ends ↦ rw ends tt
                  | inr (ptr, t, e, a) ↦
                      rw e (
                        alloc-IsHeap heap size rounded s ptr t t.memory live v even a (λ i h. refl))
                ]))
    ]
perform-Sound heap (free ptr) s live h v = free-IsHeap heap ptr s live v
perform-Sound heap (write ptr n i b) s live h v =
    let (inside, lt) = both_true (is_block ptr n live) (ltb i n) h in
    write-IsHeap heap ptr n i b s live v inside (ground (arith, lt))

-- A run ends with the process, or with all requests performed.
unfoldable pub run : ℕ → List Request → Program → Option Program
run heap [] p = some p
run heap (r ∷ rs) p = elim (perform heap r p) [ none ↦ none | some q ↦ run heap rs q ]

unfoldable pub all_proper : ℕ → List Request → Program → Bool
all_proper heap [] p = true
all_proper heap (r ∷ rs) p =
    is_proper r p.1 && elim (perform heap r p) [ none ↦ true | some q ↦ all_proper heap rs q ]

run_step :
    (heap : ℕ) (rs : List Request) (o : Option Program)
    → IfRuns (Sound heap) o
    → ((q : Program)
        → Sound heap q
        → all_proper heap rs q ≡ true
        → IfRuns (Sound heap) (run heap rs q))
    → elim o as (λ x. Bool) [ none ↦ true | some q ↦ all_proper heap rs q ] ≡ true
    → IfRuns (Sound heap) (elim o as (λ x. Option Program) [ none ↦ none | some q ↦ run heap rs q ])
run_step heap rs none v ih h = tt
run_step heap rs (some q) v ih h = ih q v h

-- For any sequence of requests to the internal heap, with sizes below 2 ^ 31 and alignments of at
-- most 2 ^ 32, and of stores inside the blocks of the program, from a heap in this state, either
-- the process ends because the heap is used up, or afterwards the blocks that were handed out and
-- not freed lie inside the heap, apart from each other and from the sizes in front of them, at
-- multiples of 8, and each size is as it was asked for.
pub run-IsHeap :
    (heap : ℕ) (rs : List Request) (p : Program)
    → all_proper heap rs p ≡ true
    → Sound heap p
    → IfRuns (Sound heap) (run heap rs p)
unfolding run all_proper
run-IsHeap heap [] p h v = v
run-IsHeap heap (r ∷ rs) (s, live) h v =
    let (now, later) = both_true (is_proper r live) _ h in
    run_step heap rs (perform heap r (s, live)) (perform-Sound heap r s live now v)
      (λ q w k. run-IsHeap heap rs q k w) later
