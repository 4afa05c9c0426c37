-- ===== src/Modules/Emulated.antt =====
-- The allocation functions of src/modules/sp_rtrace_memory.c that stand in before the C library's
-- are found: a stack of chunks in `emu_heap`, each with its size and four in the int in front.
pub mod Ready
pub mod Blocks
pub mod Steps
pub mod Requests
pub mod Sound
pub mod Moved
use sp_rtrace.Prelude.{
  ℕ, zero, suc, ◌+◌, ◌-◌, ◌*◌, ◌%◌, ◌^◌, Bool, true, false, List, [], ◌∷◌, Option, none, some, ◌==◌,
  ◌&&◌, ◌||◌, not, leb, ltb, if◌then◌else◌, bit_and,
}
use sp_rtrace.Proto.Memory.{Mem, store}
use sp_rtrace.Proto.Encode.{dword}
use sp_rtrace.Modules.Memory.{emu_heap_size}

-- `emu_heap_tail` points to the size of the last chunk.
pub record Emulated : Type 0 where
  pub memory : Mem
  pub tail : ℕ

abbrev pub emu_heap_align : ℕ
emu_heap_align = 8

-- `*(unsigned int*)a`.
unfoldable pub read_int : Mem → ℕ → ℕ
read_int m a = m a + 256 * m (a + 1) + 256 * 256 * m (a + 2) + 256 * 256 * 256 * m (a + 3)

unfoldable pub write_int : ℕ → ℕ → Mem → Mem
unfolding store dword
write_int a v m = store m a (dword (v % 2 ^ 32))

unfoldable pub aligned : ℕ → ℕ → ℕ
aligned align ptr = let offset = ptr % align in if offset == 0 then ptr else ptr + (align - offset)

-- The alignment is a power of two, so the mask of the source is a remainder. `none`: the process
-- ends, as the heap is used up. The sum of a pointer and a size may wrap around.
unfoldable pub emu_alloc_mem : ℕ → ℕ → ℕ → Emulated → Option (ℕ × Emulated)
unfolding aligned
emu_alloc_mem heap size align s =
    let ptr = aligned align (s.tail + read_int s.memory s.tail + 4) in
    if leb (heap + emu_heap_size) ((ptr + size) % 2 ^ 64)
    then none
    else some (ptr, record { memory = write_int (ptr - 4) (size + 4) s.memory; tail = ptr - 4 })

unfoldable pub emu_malloc : ℕ → ℕ → Emulated → Option (ℕ × Emulated)
emu_malloc heap size s = emu_alloc_mem heap size emu_heap_align s

-- `n` bytes from `p` on are cleared.
unfoldable pub clear : ℕ → ℕ → Mem → Mem
clear zero p m = m
clear (suc n) p m = clear n (p + 1) (λ a. if a == p then 0 else m a)

-- What is done with the new block, unless the process ends.
abbrev pub finish : (ℕ → Emulated → Emulated) → Option (ℕ × Emulated) → Option (ℕ × Emulated)
finish f none = none
finish f (some (ptr, t)) = some (ptr, f ptr t)

-- The product is an int, and extended to a size.
unfoldable pub emu_calloc : ℕ → ℕ → ℕ → Emulated → Option (ℕ × Emulated)
emu_calloc heap nmemb size s =
    let total = (nmemb * size) % 2 ^ 32 in
    let negative = leb (2 ^ 31) total in
    finish (λ ptr t. if negative then t else record t { memory = clear total ptr t.memory })
      (emu_alloc_mem heap (if negative then total + (2 ^ 64 - 2 ^ 32) else total) emu_heap_align s)

unfoldable pub emu_free : ℕ → Emulated → Emulated
emu_free ptr s = if s.tail + 4 == ptr then record s { memory = write_int s.tail 0 s.memory } else s

-- `*dst_ptr++ = *src_ptr++`, `n` times.
unfoldable pub copy : ℕ → ℕ → ℕ → Mem → Mem
copy zero dst src m = m
copy (suc n) dst src m = copy n (dst + 1) (src + 1) (λ a. if a == dst then m src else m a)

unfoldable pub emu_realloc : ℕ → ℕ → ℕ → Emulated → Option (ℕ × Emulated)
emu_realloc heap ptr size s =
    let chunk_size = if ptr == 0 then 0 else read_int s.memory (ptr - 4) in
    let n = if ltb chunk_size size then chunk_size else size in
    finish
      (λ new t.
        if not (new == 0) && not (new == ptr)
        then record t { memory = copy n new ptr t.memory }
        else t)
      (emu_alloc_mem heap size emu_heap_align (emu_free ptr s))

-- EINVAL, or the pointer that is stored; `bit_and` tells a power of two.
unfoldable pub emu_posix_memalign : ℕ → ℕ → ℕ → Emulated → Option (Option ℕ × Emulated)
emu_posix_memalign heap alignment size s =
    let rounded = if ltb alignment emu_heap_align then emu_heap_align else alignment in
    if not (alignment % 8 == 0) || not (bit_and (alignment - 1) alignment == 0) || alignment == 0
    then some (none, s)
    else elim (emu_alloc_mem heap size rounded s) [
      | none ↦ none
      | some (ptr, t) ↦ some (some ptr, t)
    ]
