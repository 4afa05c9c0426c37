-- ===== src/Modules/Memory.antt =====
-- The traced allocation functions of src/modules/sp_rtrace_memory.c: what they report, once
-- `trace_initialize` has run (so `trace_rt` is not `trace_init`) and with `get_heap` off.
pub mod Live
pub mod Leaked
pub mod Report
use sp_rtrace.Prelude.{
  ℕ, ◌+◌, ◌-◌, ◌*◌, ◌%◌, ◌^◌, Bool, true, false, List, [], ◌∷◌, ◌++◌, some, ◌==◌, ◌&&◌, ◌||◌, not,
  leb, ltb, if◌then◌else◌,
}
use sp_rtrace.Proto.Memory.{Bytes}
use sp_rtrace.Tracer.Call.{Fcall}
use sp_rtrace.Postproc.Leaks.{type_alloc, type_free}

abbrev pub emu_heap_size : ℕ
emu_heap_size = 1024 * 4

-- `trace_rt`: the functions that report, the library's, or those of the internal heap.
pub data Runtime : Type 0 where
  trace_on : Runtime
  trace_off : Runtime
  trace_emu : Runtime

-- What a thread's calls depend on: `trace_rt`, `backtrace_lock`, the address of `emu_heap`, and
-- `res_memory.id`.
pub record Thread : Type 0 where
  pub runtime : Runtime
  pub backtrace_lock : Bool
  pub emu_heap : ℕ
  pub res_memory_id : ℕ

-- A call of the process with the answer of the function behind it: `rc`, and for posix_memalign
-- also the pointer that is stored through `memptr`.
pub data Use : Type 0 where
  malloc : (size rc : ℕ) → Use
  calloc : (nmemb size rc : ℕ) → Use
  realloc : (ptr size rc : ℕ) → Use
  posix_memalign : (size rc memptr : ℕ) → Use
  free : (ptr : ℕ) → Use

abbrev pub malloc_name : Bytes
malloc_name = b'm' ∷ b'a' ∷ b'l' ∷ b'l' ∷ b'o' ∷ b'c' ∷ []

abbrev pub calloc_name : Bytes
calloc_name = b'c' ∷ b'a' ∷ b'l' ∷ b'l' ∷ b'o' ∷ b'c' ∷ []

abbrev pub realloc_name : Bytes
realloc_name = b'r' ∷ b'e' ∷ b'a' ∷ b'l' ∷ b'l' ∷ b'o' ∷ b'c' ∷ []

abbrev pub free_name : Bytes
free_name = b'f' ∷ b'r' ∷ b'e' ∷ b'e' ∷ []

abbrev pub posix_memalign_name : Bytes
posix_memalign_name =
    b'p' ∷ b'o' ∷ b's' ∷ b'i' ∷ b'x' ∷ b'_' ∷ b'm' ∷ b'e' ∷ b'm' ∷ b'a' ∷ b'l' ∷ b'i' ∷ b'g' ∷ b'n'
    ∷ []

-- `call`; the size is an int.
abbrev pub fcall : ℕ → ℕ → Bytes → ℕ → ℕ → Fcall
fcall id type name size res_id = record {
  type = type;
  name = some name;
  res_type_id = id;
  res_id = res_id;
  res_size = size % 2 ^ 32;
}

unfoldable pub trace_malloc : ℕ → ℕ → ℕ → List Fcall
trace_malloc id size rc = if rc == 0 then [] else fcall id type_alloc malloc_name size rc ∷ []

unfoldable pub trace_calloc : ℕ → ℕ → ℕ → ℕ → List Fcall
trace_calloc id nmemb size rc =
    if rc == 0 then [] else fcall id type_alloc calloc_name (nmemb * size) rc ∷ []

-- The old block is reported as freed where the new one is there, or none was asked for.
unfoldable pub trace_realloc : ℕ → ℕ → ℕ → ℕ → List Fcall
trace_realloc id ptr size rc =
    (if (not (rc == 0) || size == 0) && not (ptr == 0)
      then fcall id type_free realloc_name 0 ptr ∷ []
      else [])
    ++ (if rc == 0 then [] else fcall id type_alloc realloc_name size rc ∷ [])

unfoldable pub trace_posix_memalign : ℕ → ℕ → ℕ → ℕ → List Fcall
trace_posix_memalign id size rc memptr =
    if rc == 0 then fcall id type_alloc posix_memalign_name size memptr ∷ [] else []

unfoldable pub trace_free : ℕ → ℕ → List Fcall
trace_free id ptr = fcall id type_free free_name 0 ptr ∷ []

unfoldable pub is_in_internal_heap : ℕ → ℕ → Bool
is_in_internal_heap emu_heap ptr = leb emu_heap ptr && ltb ptr (emu_heap + emu_heap_size)

-- Through `trace_rt`: only the tracing functions report.
abbrev pub rt : Runtime → List Fcall → List Fcall
rt trace_on calls = calls
rt trace_off calls = []
rt trace_emu calls = []

-- BT_EXECUTE_LOCKED: a call from inside `backtrace` goes to the original function.
abbrev pub execute_locked : Bool → List Fcall → List Fcall
execute_locked true calls = []
execute_locked false calls = calls

-- `malloc`, `calloc`, `realloc`, `posix_memalign` and `free`. A block of the internal heap is
-- moved by `malloc`, and its freeing is not reported.
unfoldable pub reports : Thread → Use → List Fcall
reports t (malloc size rc) =
    execute_locked t.backtrace_lock (rt t.runtime (trace_malloc t.res_memory_id size rc))
reports t (calloc nmemb size rc) =
    execute_locked t.backtrace_lock (rt t.runtime (trace_calloc t.res_memory_id nmemb size rc))
reports t (realloc ptr size rc) =
    if is_in_internal_heap t.emu_heap ptr
    then rt t.runtime (trace_malloc t.res_memory_id size rc)
    else execute_locked t.backtrace_lock (rt t.runtime (trace_realloc t.res_memory_id ptr size rc))
reports t (posix_memalign size rc memptr) =
    rt t.runtime (trace_posix_memalign t.res_memory_id size rc memptr)
reports t (free ptr) =
    if is_in_internal_heap t.emu_heap ptr
    then []
    else execute_locked t.backtrace_lock (rt t.runtime (trace_free t.res_memory_id ptr))

unfoldable pub reports_all : Thread → List Use → List Fcall
reports_all t [] = []
reports_all t (u ∷ us) = reports t u ++ reports_all t us
