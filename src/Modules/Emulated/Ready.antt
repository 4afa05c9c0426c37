-- ===== src/Modules/Emulated/Ready.antt =====
-- One allocation: the block lies behind everything in use, inside the heap, and is aligned.
use native.Mathlib.Nat.{mod-lt, mod-add-mod, mod_self, mod-mod_of_dvd, dvd_of_mod-eq-zero}
use sp_rtrace.Prelude.{
  ℕ, ◌+◌, ◌-◌, ◌%◌, ◌^◌, ◌≤◌, ◌<◌, none, some, ◌==◌, ◌≡◌, ap, ◌∙◌, sym, leb, arith, Bool-cases, inl,
  inr, ◌⊎◌,
}
use sp_rtrace.Proto.Memory.{Mem, store}
use sp_rtrace.Proto.Encode.{dword}
use sp_rtrace.Modules.Memory.{emu_heap_size}
use sp_rtrace.Modules.Emulated.{Emulated, read_int, write_int, aligned, emu_alloc_mem}

-- Where the last chunk ends.
abbrev pub top : Emulated → ℕ
top s = s.tail + read_int s.memory s.tail

pub record IsReady (heap : ℕ) (s : Emulated) : Type 0 where
  pub low : heap ≤ s.tail
  pub high : top s ≤ heap + emu_heap_size
  pub address : heap < 2 ^ 62

pub read-write_int : (m : Mem) (a v : ℕ) → v < 2 ^ 32 → read_int (write_int a v m) a ≡ v
unfolding read_int write_int store dword
read-write_int m a v h = ground arith

pub write_int_outside : (m : Mem) (a v i : ℕ) → (i < a) ⊎ (a + 4 ≤ i) → write_int a v m i ≡ m i
unfolding write_int store dword
write_int_outside m a v i h = ground arith

pub aligned_lem :
    (align ptr : ℕ)
    → 0 < align
    → (aligned align ptr % align ≡ 0)
      × (ptr ≤ aligned align ptr)
      × (aligned align ptr < ptr + align)
unfolding aligned
aligned_lem align ptr h = elim (Bool-cases (ptr % align == 0)) [
  | inl even ↦ rw even (ground (arith, even), omega arith, omega arith)
  | inr odd ↦
      (let r = ptr % align in
        let pos_rest : 0 < r = ground (arith, odd) in
        let up : r + (align - r) ≡ align = omega (arith, mod-lt ptr h) in
        rw odd (
          sym (mod-add-mod ptr align (align - r)) ∙ ap (λ x. x % align) up ∙ mod_self align,
          omega arith,
          omega (arith, mod-lt ptr h, pos_rest),
        ))
]

pub aligned_8 : (align ptr : ℕ) → align % 8 ≡ 0 → ptr % align ≡ 0 → ptr % 8 ≡ 0
aligned_8 align ptr h e = sym (mod-mod_of_dvd 8 ptr (dvd_of_mod-eq-zero 8 h)) ∙ ap (λ x. x % 8) e

pub record Allocated (heap size align : ℕ) (s : Emulated) (ptr : ℕ) (t : Emulated) : Type 0 where
  pub behind : top s + 4 ≤ ptr
  pub inside : ptr + size < heap + emu_heap_size
  pub even : ptr % align ≡ 0
  pub last : t.tail + 4 ≡ ptr
  pub now : top t ≡ ptr + size
  pub kept : (i : ℕ) → (i < t.tail) ⊎ (t.tail + 4 ≤ i) → t.memory i ≡ s.memory i
  pub ready : IsReady heap t

pub emu_alloc_mem-Allocated :
    (heap size align : ℕ) (s : Emulated)
    → IsReady heap s
    → 0 < align
    → align ≤ 2 ^ 32
    → size < 2 ^ 31
    → (emu_alloc_mem heap size align s ≡ none)
      ⊎ ((ptr : ℕ) × (t : Emulated) × (emu_alloc_mem heap size align s ≡ some (ptr, t))
          × Allocated heap size align s ptr t)
unfolding emu_alloc_mem
emu_alloc_mem-Allocated heap size align s r pos small short =
    let new = s.tail + read_int s.memory s.tail + 4 in
    let ptr = aligned align new in
    let (even, above, near) = aligned_lem align new pos in
    let memory = write_int (ptr - 4) (size + 4) s.memory in
    let t : Emulated = record { memory = memory; tail = ptr - 4 } in
    let header : read_int memory (ptr - 4) ≡ size + 4 =
      read-write_int s.memory (ptr - 4) (size + 4) (omega arith) in
    let address = r.address in
    let high = r.high in
    let low = r.low in
    elim (Bool-cases (leb (heap + emu_heap_size) ((ptr + size) % 2 ^ 64))) [
      | inl full ↦ inl (rw full)
      | inr fits ↦ inr (
        ptr,
        t,
        rw fits,
        (let inside : ptr + size < heap + emu_heap_size =
              ground (arith, fits, address, high, near, short, small) in
            record {
              behind = omega (arith, above);
              inside = inside;
              even = even;
              last = omega (arith, above);
              now = omega (arith, above, header);
              kept = λ i out. write_int_outside s.memory (ptr - 4) (size + 4) i out;
              ready = record {
                low = omega (arith, above, low);
                high = omega (arith, above, header, inside);
                address = address;
              };
            }),
      )
    ]
