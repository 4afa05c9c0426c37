-- ===== src/Resolve/Mmaps/Lookup.antt =====
-- The module that is found for an address.
use sp_rtrace.Prelude.{
  ℕ, zero, suc, subst, ◌^◌, ◌<◌, List, Option, some, ◌≡◌, refl, ◌∙◌, All, get_elem?, [], ◌∷◌,
}
use sp_rtrace.Resolve.SortedArray.{Sarray, IsSplit, IsSorted}
use sp_rtrace.Resolve.SortedArray.Found.{sarray_find-same, sarray_find-IsHit}
use sp_rtrace.Resolve.SortedArray.Added.{sarray_add-IsSorted, sarray_add-All, sarray_add-stored}
use sp_rtrace.Resolve.SortedArray.Onto.{Keeps}
use sp_rtrace.Resolve.Mmaps.{RsMmap, mmap_compare, template, rs_mmap_find_module, add_module}
use sp_rtrace.Resolve.Mmaps.Compared.{
  IsMapping, Precedes, Covers, Apart, Precedes-trans, mmap_compare-IsAligned, IsSplit-Apart,
  covered-same, same-covered,
}

-- The mapping is one of the list.
abbrev pub IsOneOf : List RsMmap → RsMmap → Type 0
IsOneOf ms m = (i : ℕ) × (get_elem? ms i ≡ some m)

each_IsOneOf : (x : RsMmap) (ms : List RsMmap) → All (IsOneOf ms) ms → All (IsOneOf (x ∷ ms)) ms
each_IsOneOf x ms h = of_part ms h
  where
    of_part : (ys : List RsMmap) → All (IsOneOf ms) ys → All (IsOneOf (x ∷ ms)) ys
    of_part [] h = tt
    of_part (y ∷ ys) h = (let (i, e) = h.0 in (suc i, e), of_part ys h.1)

all_IsOneOf : (ms : List RsMmap) → All (IsOneOf ms) ms
all_IsOneOf [] = tt
all_IsOneOf (m ∷ ms) = ((0, refl), each_IsOneOf m ms (all_IsOneOf ms))

get-All :
    (P : RsMmap → Type 0) (ms : List RsMmap) (i : ℕ) (m : RsMmap)
    → All P ms
    → get_elem? ms i ≡ some m
    → P m
get-All P [] i m h e = absurd cc
get-All P (x ∷ ms) zero m h e = subst P (some_inj x m e) h.0
  where
    some_inj : (x m : RsMmap) → Path (Option RsMmap) (some x) (some m) → x ≡ m
    some_inj x m e = cc
get-All P (x ∷ ms) (suc i) m h e = get-All P ms i m h.1 e

keeps :
    (map : RsMmap) (xs ys : List RsMmap)
    → IsOneOf ys map × Keeps xs ys
    → (i : ℕ) (m : RsMmap) → get_elem? (map ∷ xs) i ≡ some m
    → IsOneOf ys m
keeps map xs ys (h, k) zero m e = let (i, f) = h in (i, f ∙ e)
keeps map xs ys (h, k) (suc i) m e = k i m e

splits :
    (map : RsMmap) (ms : List RsMmap)
    → All (Apart map) ms
    → All (IsSplit mmap_compare Precedes map) ms
splits map [] h = tt
splits map (m ∷ ms) h = (IsSplit-Apart map m h.0, splits map ms h.1)

-- Let the mappings of an array be below 2 ^ 63, not empty, and in order without an overlap, and
-- let a new one, which overlaps none of them, be added to it with `mmap_compare`. Then the array
-- is in order again; `rs_mmap_find_module` finds a mapping for each address below 2 ^ 63 from the
-- start to the end, included, of the new one or of an old one; and what it finds for such an
-- address is the new mapping or an old one, and has the address in it.
pub add_module-rs_mmap_find_module :
    (map : RsMmap) (mmaps : Sarray RsMmap)
    → IsMapping map
    → All IsMapping mmaps.items
    → IsSorted Precedes mmaps.items
    → All (Apart map) mmaps.items
    → let t = add_module map mmaps in
      let ms = map ∷ mmaps.items in
      IsSorted Precedes t.items
      × ((addr : ℕ) (m : RsMmap)
          → addr < 2 ^ 63
          → IsOneOf ms m
          → Covers addr m
          → (y : RsMmap) × (rs_mmap_find_module t addr ≡ some y))
      × ((addr : ℕ) (y : RsMmap)
          → addr < 2 ^ 63
          → rs_mmap_find_module t addr ≡ some y
          → IsOneOf ms y × Covers addr y)
unfolding rs_mmap_find_module
add_module-rs_mmap_find_module map mmaps mapping mappings sorted apart =
    let t = add_module map mmaps in
    let ms = map ∷ mmaps.items in
    let stored = sarray_add-stored mmap_compare map mmaps in
    let in_order =
      sarray_add-IsSorted mmap_compare Precedes Precedes-trans map mmaps sorted
        (splits map mmaps.items apart) in
    let all_mappings : All IsMapping ms = (mapping, mappings) in
    let kept : (i : ℕ) (m : RsMmap)
        → get_elem? ms i ≡ some m
        → (j : ℕ) × (get_elem? t.items j ≡ some m) =
      keeps map mmaps.items t.items stored in
    let listed =
      sarray_add-All mmap_compare (IsOneOf ms) map mmaps (0, refl)
        (each_IsOneOf map mmaps.items (all_IsOneOf mmaps.items)) in
    (
      in_order,
      λ addr m low one covers.
          let (i, e) = one in
          let (j, k) = kept i m e in
          let is = get-All IsMapping ms i m all_mappings e in
          let (y, found, alike) =
            sarray_find-same mmap_compare Precedes (template addr) m t j
              (mmap_compare-IsAligned (template addr) low) in_order k
              (covered-same (template addr) m is low covers) in
          (y, found),
      λ addr y low found.
          let (k, e, alike) = sarray_find-IsHit mmap_compare Precedes (template addr) t y found in
          let one = get-All (IsOneOf ms) t.items k y listed e in
          let (i, f) = one in
          let is = get-All IsMapping ms i y all_mappings f in
          (one, same-covered (template addr) y is low alike),
    )
