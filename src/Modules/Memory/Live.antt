-- ===== src/Modules/Memory/Live.antt =====
-- Which blocks a process holds, apart from what is reported about them.
use sp_rtrace.Prelude.{
  ℕ, false, List, [], ◌∷◌, ◌++◌, ◌≡◌, refl, ap, ◌∙◌, ◌==◌, ◌&&◌, ◌||◌, not, if◌then◌else◌, map,
  arith,
}
use mathlib.Core.List.{map-append}
use sp_rtrace.Tracer.Call.{Fcall}
use sp_rtrace.Modules.Held.{Action, release, told, told-append}
use sp_rtrace.Modules.Memory.{
  Thread, Use, malloc, calloc, realloc, posix_memalign, free, trace_on, is_in_internal_heap,
  trace_malloc, trace_calloc, trace_realloc, trace_posix_memalign, trace_free, reports, reports_all,
}

-- A null pointer is no block.
unfoldable pub hold : ℕ → List ℕ → List ℕ
hold rc live = if rc == 0 then live else live ++ rc ∷ []

-- The blocks of the C library that are held after a call, oldest first: the documented behaviour of
-- the allocation functions. A reallocation that fails keeps the old block, one to size 0 frees it.
unfoldable pub held : ℕ → Use → List ℕ → List ℕ
held emu_heap (malloc size rc) live = hold rc live
held emu_heap (calloc nmemb size rc) live = hold rc live
held emu_heap (realloc ptr size rc) live =
    if is_in_internal_heap emu_heap ptr
    then hold rc live
    else hold rc
        (if (not (rc == 0) || size == 0) && not (ptr == 0) then release ◌==◌ ptr live else live)
held emu_heap (posix_memalign size rc memptr) live = if rc == 0 then live ++ memptr ∷ [] else live
held emu_heap (free ptr) live =
    if is_in_internal_heap emu_heap ptr then live else release ◌==◌ ptr live

unfoldable pub held_all : ℕ → List Use → List ℕ → List ℕ
held_all emu_heap [] live = live
held_all emu_heap (u ∷ us) live = held_all emu_heap us (held emu_heap u live)

-- The type and the identifier of a reported call.
abbrev pub action_of : Fcall → Action ℕ
action_of c = (c.type, c.res_id)

abbrev pub tracing : ℕ → ℕ → Thread
tracing emu_heap id = record {
  runtime = trace_on;
  backtrace_lock = false;
  emu_heap = emu_heap;
  res_memory_id = id;
}

pub told-reports :
    (emu_heap id : ℕ) (u : Use) (live : List ℕ)
    → told ◌==◌ (map action_of (reports (tracing emu_heap id) u)) live ≡ held emu_heap u live
unfolding told reports held hold trace_malloc trace_calloc trace_realloc trace_posix_memalign
    trace_free
told-reports emu_heap id (malloc size rc) live = ground arith
told-reports emu_heap id (calloc nmemb size rc) live = ground arith
told-reports emu_heap id (realloc ptr size rc) live = ground arith
told-reports emu_heap id (posix_memalign size rc memptr) live = ground arith
told-reports emu_heap id (free ptr) live = ground arith

-- In a thread that traces, the reports tell exactly which blocks are held.
pub told-reports_all :
    (emu_heap id : ℕ) (us : List Use) (live : List ℕ)
    → told ◌==◌ (map action_of (reports_all (tracing emu_heap id) us)) live
      ≡ held_all emu_heap us live
unfolding reports_all held_all told
told-reports_all emu_heap id [] live = refl
told-reports_all emu_heap id (u ∷ us) live =
    ap (λ l. told ◌==◌ l live)
      (map-append action_of (reports (tracing emu_heap id) u)
        (reports_all (tracing emu_heap id) us))
    ∙ told-append ◌==◌ (map action_of (reports (tracing emu_heap id) u))
        (map action_of (reports_all (tracing emu_heap id) us)) live
    ∙ told-reports_all emu_heap id us
        (told ◌==◌ (map action_of (reports (tracing emu_heap id) u)) live)
    ∙ ap (held_all emu_heap us) (told-reports emu_heap id u live)
