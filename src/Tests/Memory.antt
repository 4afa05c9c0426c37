-- ===== src/Tests/Memory.antt =====
-- A short run of the allocation functions, and the trace that the post-processor has of it.
use sp_rtrace.Prelude.{ℕ, true, false, List, [], ◌∷◌, ◌≡◌, refl, some, none, map}
use sp_rtrace.Binary.Data.{Fcall}
use sp_rtrace.Postproc.Leaks.{Node, filter_leaks}
use sp_rtrace.Postproc.Leaks.Result.{Leaves}
use sp_rtrace.Tests.Registry.{types, types-Distinct}
use sp_rtrace.Modules.Memory.{
  Use, malloc, calloc, realloc, posix_memalign, free, reports, reports_all, trace_malloc,
  trace_calloc, trace_realloc, trace_posix_memalign, trace_free, is_in_internal_heap,
}
use sp_rtrace.Modules.Held.{release, is_held}
use sp_rtrace.Modules.Memory.Live.{action_of, tracing, hold, held, held_all}
use sp_rtrace.Modules.Memory.Leaked.{stored_action, block_of, is_new, grants, grants_all}
use sp_rtrace.Modules.Memory.Report.{filter_leaks-held_all}

abbrev uses : List Use
uses =
    malloc 16 5000
    ∷ calloc 2 8 5100
    ∷ realloc 5000 32 5200
    ∷ free 5100
    ∷ realloc 5200 64 0
    ∷ posix_memalign 8 0 5000
    ∷ free 900
    ∷ []

abbrev stored : ℕ → ℕ → Fcall
stored type res_id = record {
  index = 0;
  type = type;
  context = 0;
  timestamp = 0;
  name = [];
  res_type = some 0;
  res_id = res_id;
  res_size = 8;
  trace = none;
  args = none;
}

abbrev trace : List Fcall
trace =
    stored 2 5000
    ∷ stored 2 5100
    ∷ stored 1 5000
    ∷ stored 2 5200
    ∷ stored 1 5100
    ∷ stored 2 5000
    ∷ []

reported : map stored_action trace ≡ map action_of (reports_all (tracing 100 1) uses)
unfolding reports_all reports trace_malloc trace_calloc trace_realloc trace_posix_memalign
    trace_free is_in_internal_heap
reported = refl

granted : grants_all 100 uses [] ≡ true
unfolding grants_all grants is_new is_held held hold release is_in_internal_heap
granted = refl

filter_leaks-held_all_example :
    (nodes : List Node) × Leaves (filter_leaks types trace) nodes
    × (map block_of nodes ≡ held_all 100 uses [])
filter_leaks-held_all_example =
    filter_leaks-held_all types 0
      (record { id = 1; type = b'm' ∷ []; desc = []; flags = 0; hide = false }) trace 100 1 uses
      types-Distinct refl refl (refl, (refl, (refl, (refl, (refl, (refl, tt)))))) reported granted

held_after : held_all 100 uses [] ≡ 5200 ∷ 5000 ∷ []
unfolding held_all held hold release is_in_internal_heap
held_after = refl
