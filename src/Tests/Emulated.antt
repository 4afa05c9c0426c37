-- ===== src/Tests/Emulated.antt =====
-- A short run on the internal heap.
use sp_rtrace.Prelude.{true, List, [], ◌∷◌, ◌≡◌, refl, ◌==◌, if◌then◌else◌, arith, min}
use sp_rtrace.Modules.Emulated.{
  Emulated, read_int, write_int, aligned, emu_alloc_mem, emu_malloc, emu_calloc, emu_free,
  emu_realloc, emu_posix_memalign, clear, copy,
}
use sp_rtrace.Modules.Emulated.Blocks.{IsHeap, without, is_block}
use sp_rtrace.Modules.Emulated.Requests.{
  Request, malloc, calloc, realloc, posix_memalign, free, write, perform, is_proper, IfRuns, Sound,
}
use sp_rtrace.Modules.Emulated.Sound.{run, all_proper, run-IsHeap}
use sp_rtrace.Modules.Emulated.Moved.{Keeps, emu_realloc-Keeps}

abbrev fresh : Emulated
fresh = record { memory = λ a. 0; tail = 1024 }

fresh-IsHeap : IsHeap 1024 [] fresh
unfolding without read_int
fresh-IsHeap = record {
  ready = record { low = omega arith; high = omega arith; address = omega arith };
  stack = tt;
  below = tt;
  sized = tt;
}

abbrev requests : List Request
requests =
    malloc 10
    ∷ write 1032 10 9 7
    ∷ posix_memalign 64 20
    ∷ realloc 1032 30
    ∷ calloc 2 8
    ∷ free 1120
    ∷ []

proper : all_proper 1024 requests (fresh, []) ≡ true
unfolding all_proper is_proper perform emu_malloc emu_calloc emu_realloc emu_posix_memalign emu_free
    emu_alloc_mem aligned read_int write_int clear copy without is_block
proper = refl

run-IsHeap_example : IfRuns (Sound 1024) (run 1024 requests (fresh, []))
run-IsHeap_example = run-IsHeap 1024 requests (fresh, []) proper fresh-IsHeap

-- One block of ten bytes at 1032.
abbrev used : Emulated
used = record { memory = λ a. if a == 1028 then 14 else 0; tail = 1028 }

used-IsHeap : IsHeap 1024 ((1032, 10) ∷ []) used
unfolding without read_int
used-IsHeap = record {
  ready = record { low = omega arith; high = omega arith; address = omega arith };
  stack = (omega arith, refl, omega arith, tt);
  below = tt;
  sized = (refl, tt);
}

is_used : is_block 1032 10 ((1032, 10) ∷ []) ≡ true
unfolding is_block
is_used = refl

emu_realloc-Keeps_example : IfRuns (Keeps used 1032 (min 10 40)) (emu_realloc 1024 1032 40 used)
emu_realloc-Keeps_example =
    emu_realloc-Keeps 1024 1032 10 40 used ((1032, 10) ∷ []) used-IsHeap is_used (omega arith)
