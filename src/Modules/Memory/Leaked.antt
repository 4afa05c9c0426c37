-- ===== src/Modules/Memory/Leaked.antt =====
-- What `filter_leaks` leaves of the reported calls, and the blocks that are held.
use sp_rtrace.Prelude.{
  ℕ, Bool, true, List, [], ◌∷◌, ◌≡◌, refl, ap, ap₂, ◌∙◌, some, ◌==◌, ◌&&◌, ◌||◌, not, if◌then◌else◌,
  map, arith, All, ==_self,
}
use mathlib.Core.List.{map-append}
use sp_rtrace.Binary.Data.{Fcall}
use sp_rtrace.Postproc.Leaks.{Node}
use sp_rtrace.Postproc.Leaks.Keys.{same_key}
use sp_rtrace.Modules.Memory.{
  Use, malloc, calloc, realloc, posix_memalign, free, is_in_internal_heap, trace_malloc,
  trace_calloc, trace_realloc, trace_posix_memalign, trace_free, reports, reports_all,
}
use sp_rtrace.Modules.Held.{Action, release, told, is_held, fresh, fresh-append}
use sp_rtrace.Modules.Memory.Live.{action_of, told-reports, tracing, held}

-- The block that is returned is none that is held.
unfoldable pub is_new : ℕ → List ℕ → Bool
is_new rc live = rc == 0 || not (is_held ◌==◌ rc live)

unfoldable pub grants : ℕ → Use → List ℕ → Bool
grants emu_heap (malloc size rc) live = is_new rc live
grants emu_heap (calloc nmemb size rc) live = is_new rc live
grants emu_heap (realloc ptr size rc) live =
    if is_in_internal_heap emu_heap ptr
    then is_new rc live
    else is_new rc
        (if (not (rc == 0) || size == 0) && not (ptr == 0) then release ◌==◌ ptr live else live)
grants emu_heap (posix_memalign size rc memptr) live =
    not (rc == 0) || not (is_held ◌==◌ memptr live)
grants emu_heap (free ptr) live = true

-- An allocator never hands out a block that is held.
unfoldable pub grants_all : ℕ → List Use → List ℕ → Bool
grants_all emu_heap [] live = true
grants_all emu_heap (u ∷ us) live =
    grants emu_heap u live && grants_all emu_heap us (held emu_heap u live)

fresh-reports :
    (emu_heap id : ℕ) (u : Use) (live : List ℕ)
    → fresh ◌==◌ (map action_of (reports (tracing emu_heap id) u)) live ≡ grants emu_heap u live
unfolding fresh told reports grants is_new trace_malloc trace_calloc trace_realloc
    trace_posix_memalign trace_free
fresh-reports emu_heap id (malloc size rc) live = ground arith
fresh-reports emu_heap id (calloc nmemb size rc) live = ground arith
fresh-reports emu_heap id (realloc ptr size rc) live = ground arith
fresh-reports emu_heap id (posix_memalign size rc memptr) live = ground arith
fresh-reports emu_heap id (free ptr) live = ground arith

pub fresh-reports_all :
    (emu_heap id : ℕ) (us : List Use) (live : List ℕ)
    → fresh ◌==◌ (map action_of (reports_all (tracing emu_heap id) us)) live
      ≡ grants_all emu_heap us live
unfolding reports_all grants_all fresh
fresh-reports_all emu_heap id [] live = refl
fresh-reports_all emu_heap id (u ∷ us) live =
    let now = map action_of (reports (tracing emu_heap id) u) in
    let later = map action_of (reports_all (tracing emu_heap id) us) in
    ap (λ l. fresh ◌==◌ l live)
      (map-append action_of (reports (tracing emu_heap id) u)
        (reports_all (tracing emu_heap id) us))
    ∙ fresh-append ◌==◌ now later live
    ∙ ap₂ ◌&&◌ (fresh-reports emu_heap id u live) (
        ap (fresh ◌==◌ later) (told-reports emu_heap id u live)
        ∙ fresh-reports_all emu_heap id us (held emu_heap u live))

-- All calls have one type of resource.
abbrev pub AreOf : ℕ → List Fcall → Type 0
AreOf position = All (λ c. c.res_type ≡ some position)

pub keyed_by_block :
    (position : ℕ) (c d : Fcall)
    → c.res_type ≡ some position
    → d.res_type ≡ some position
    → same_key c d ≡ (c.res_id == d.res_id)
unfolding same_key
keyed_by_block position c d h k = rw (h, k, ==_self position)

abbrev pub block_of : Node → ℕ
block_of x = x.1.res_id

abbrev pub stored_action : Fcall → Action ℕ
stored_action c = (c.type, c.res_id)
