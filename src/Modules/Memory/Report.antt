-- ===== src/Modules/Memory/Report.antt =====
-- From the calls of the allocation functions to the leaks of the post-processor.
use sp_rtrace.Prelude.{
  ℕ, true, List, [], ◌∷◌, ◌≡◌, sym, ap, ◌∙◌, some, bit_and, get_elem?, map, All, ◌==◌,
}
use sp_rtrace.Binary.Data.{Fcall, Resource}
use sp_rtrace.Postproc.Leaks.{Node, filter_leaks}
use sp_rtrace.Postproc.Leaks.Keys.{Distinct, IsPlain}
use sp_rtrace.Postproc.Leaks.Pending.{leaks}
use sp_rtrace.Postproc.Leaks.Result.{Leaves, filter_leaks-leaks}
use sp_rtrace.Modules.Held.{told, fresh, told-leaks, staying}
use sp_rtrace.Modules.Memory.{Use, reports_all}
use sp_rtrace.Modules.Memory.Live.{action_of, tracing, held_all, told-reports_all}
use sp_rtrace.Modules.Memory.Leaked.{
  AreOf, stored_action, block_of, grants_all, fresh-reports_all, keyed_by_block,
}

AreOf-IsPlain :
    (types : List Resource) (position : ℕ) (resource : Resource) (cs : List Fcall)
    → get_elem? types position ≡ some resource
    → bit_and resource.flags 1 ≡ 0
    → AreOf position cs
    → All (IsPlain types) cs
AreOf-IsPlain types position resource [] e f h = tt
AreOf-IsPlain types position resource (c ∷ cs) e f h = (
  record { position = position; resource = resource; typed = h.0; stored = e; plain = f },
  AreOf-IsPlain types position resource cs e f h.1,
)

-- Let the stored calls tell the same types and identifiers as what a tracing thread reports of the
-- allocation functions, and all have one registered type without reference counts; let each
-- registered type have an id of its own, and let the allocator never return a block that is held.
-- Then `filter_leaks` runs without a fault, and the calls it leaves are, in order, exactly those
-- of the blocks that the process still holds.
pub filter_leaks-held_all :
    (types : List Resource) (position : ℕ) (resource : Resource) (cs : List Fcall) (emu_heap id : ℕ)
    (us : List Use)
    → Distinct types
    → get_elem? types position ≡ some resource
    → bit_and resource.flags 1 ≡ 0
    → AreOf position cs
    → map stored_action cs ≡ map action_of (reports_all (tracing emu_heap id) us)
    → grants_all emu_heap us [] ≡ true
    → (nodes : List Node) × Leaves (filter_leaks types cs) nodes
      × (map block_of nodes ≡ held_all emu_heap us [])
unfolding staying
filter_leaks-held_all types position resource cs emu_heap id us d e f h same grants =
    let new = ap (λ l. fresh ◌==◌ l []) same ∙ fresh-reports_all emu_heap id us [] ∙ grants in
    (
      leaks 0 cs,
      filter_leaks-leaks types cs d (AreOf-IsPlain types position resource cs e f h),
      sym (
            told-leaks ◌==◌ (λ c. c.res_id) (λ c. c.res_type ≡ some position)
              (keyed_by_block position) cs 0 [] h new)
          ∙ ap (λ l. told ◌==◌ l []) same
          ∙ told-reports_all emu_heap id us [],
    )
