-- ===== src/Resolve/Mmaps.antt =====
-- The sorted array of memory mappings of src/rtrace-resolve/resolver.c.
pub mod Compared
pub mod Lookup
use sp_rtrace.Prelude.{
  ℕ, zero, suc, subst, ◌+◌, ◌-◌, ◌%◌, ◌^◌, ◌≤◌, ◌<◌, Bool, true, false, List, Option, some, none,
  ltb, leb, ◌==◌, ◌&&◌, if◌then◌else◌, ◌≡◌, ◌≢◌, refl, ap, sym, ◌∙◌, ◌⊎◌, inl, inr, ◌↔◌, All,
  get_elem?, arith, Bool-cases, ltb→lt, [], ◌∷◌,
}
use sp_rtrace.Proto.Memory.{Bytes}
use sp_rtrace.Resolve.SortedArray.{
  Sign, less, same, greater, is_less, Sarray, sarray_add, sarray_find, IsAligned, IsSplit, IsSorted,
}
use sp_rtrace.Resolve.SortedArray.Found.{sarray_find-same, sarray_find-IsHit}
use sp_rtrace.Resolve.SortedArray.Added.{sarray_add-IsSorted, sarray_add-All, sarray_add-stored}
use sp_rtrace.Resolve.SortedArray.Onto.{Keeps}

-- The fields of `rs_mmap_t` that do not belong to the cache of symbols or to files.
pub record RsMmap : Type 0 where
  pub id : ℕ
  pub module_name : Bytes
  pub from : ℕ
  pub to : ℕ
  pub is_absolute : Bool

-- The difference is unsigned and returned as a signed long.
unfoldable pub mmap_compare : RsMmap → RsMmap → Sign
mmap_compare mmap1 mmap2 =
    let difference = (mmap1.from + 2 ^ 64 - mmap2.from) % 2 ^ 64 in
    if leb mmap2.from mmap1.from && leb mmap1.from mmap2.to
    then same
    else if difference == 0
    then same
    else if ltb difference (2 ^ 63)
    then greater
    else less

abbrev pub template : ℕ → RsMmap
template addr = record { id = 0; module_name = []; from = addr; to = 0; is_absolute = false }

unfoldable pub rs_mmap_find_module : Sarray RsMmap → ℕ → Option RsMmap
rs_mmap_find_module mmaps addr = sarray_find mmap_compare (template addr) mmaps

-- What `rs_mmap_add_module` does to the array; it is not called for a relative path.
abbrev pub add_module : RsMmap → Sarray RsMmap → Sarray RsMmap
add_module map mmaps = sarray_add mmap_compare map mmaps
