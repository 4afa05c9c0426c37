-- ===== src/Modules/Emulated/Steps.antt =====
-- Each operation of the internal heap keeps the blocks apart.
use sp_rtrace.Prelude.{
  ℕ, ◌+◌, ◌-◌, ◌%◌, ◌<◌, true, List, ◌∷◌, ◌==◌, ◌≡◌, ◌∙◌, sym, subst, arith, Bool-cases, inl, inr,
}
use sp_rtrace.Proto.Memory.{Mem}
use sp_rtrace.Modules.Emulated.{Emulated, read_int, write_int, emu_free}
use sp_rtrace.Modules.Emulated.Ready.{top, Allocated, read-write_int, write_int_outside, aligned_8}
use sp_rtrace.Modules.Emulated.Blocks.{
  Block, Stack, without, IsSized, IsHeap, Stack-mono, Stack-without, without_comm, All-without,
  IsSized-kept,
}

-- A new block, of which only the inside was changed since.
pub alloc-IsHeap :
    (heap size align : ℕ) (s : Emulated) (ptr : ℕ) (t : Emulated) (m : Mem) (live : List Block)
    → IsHeap heap live s
    → align % 8 ≡ 0
    → Allocated heap size align s ptr t
    → ((i : ℕ) → i < ptr → m i ≡ t.memory i)
    → IsHeap heap ((ptr, size) ∷ live) (record t { memory = m })
unfolding without read_int
alloc-IsHeap heap size align s ptr t m live v e a inside =
    let last = a.last in
    let behind = a.behind in
    let header : read_int m t.tail ≡ size + 4 = ground (
      arith,
      a.now,
      last,
      inside t.tail,
      inside (t.tail + 1),
      inside (t.tail + 2),
      inside (t.tail + 3),
    ) in
    let same : (i : ℕ) → i < top s → m i ≡ s.memory i =
      λ i h. inside i (omega (arith, behind)) ∙ a.kept i (inl (omega (arith, behind, last))) in
    let deep = Stack-mono heap (top s) t.tail live (omega (arith, behind, last)) v.stack in
    let low = a.ready.low in
    let even = aligned_8 align ptr e a.even in
    let here : (ptr == t.tail + 4) ≡ true = ground (arith, last) in
    let tail : ptr - 4 ≡ t.tail = omega (arith, last) in
    record {
      ready = record {
        low = low;
        high = omega (arith, header, a.inside, last);
        address = a.ready.address;
      };
      stack = (
        omega (arith, low, last),
        even,
        omega (arith, header, last),
        subst (λ b. Stack heap b live) (sym tail) deep,
      );
      below = rw here (Stack-without heap t.tail (t.tail + 4) live deep);
      sized = (
        subst (λ b. read_int m b ≡ size + 4) (sym tail) header,
        IsSized-kept heap (top s) s.memory m live same v.stack v.sized,
      );
    }

pub free-IsHeap :
    (heap ptr : ℕ) (s : Emulated) (live : List Block)
    → IsHeap heap live s
    → IsHeap heap (without ptr live) (emu_free ptr s)
unfolding emu_free
free-IsHeap heap ptr s live v = elim (Bool-cases (s.tail + 4 == ptr)) [
  | inl last ↦
      (let e : s.tail + 4 ≡ ptr = ground (arith, last) in
        let header = read-write_int s.memory s.tail 0 (omega arith) in
        let left = subst (λ p. Stack heap s.tail (without p live)) e v.below in
        let twice = Stack-without heap s.tail (s.tail + 4) (without ptr live) left in
        let same : (i : ℕ) → i < s.tail → write_int s.tail 0 s.memory i ≡ s.memory i =
          λ i h. write_int_outside s.memory s.tail 0 i (inl h) in
        rw last (record {
          ready = record {
            low = v.ready.low;
            high = omega (arith, header, v.ready.high);
            address = v.ready.address;
          };
          stack =
              Stack-mono heap s.tail (top (record s { memory = write_int s.tail 0 s.memory }))
                (without ptr live) (omega arith) left;
          below = twice;
          sized =
              IsSized-kept heap s.tail s.memory (write_int s.tail 0 s.memory) (without ptr live)
                same left (All-without (IsSized s.memory) ptr live v.sized);
        }))
  | inr other ↦ rw other (record {
    ready = v.ready;
    stack = Stack-without heap (top s) ptr live v.stack;
    below =
        subst (Stack heap s.tail) (without_comm ptr (s.tail + 4) live)
          (Stack-without heap s.tail ptr (without (s.tail + 4) live) v.below);
    sized = All-without (IsSized s.memory) ptr live v.sized;
  })
]
