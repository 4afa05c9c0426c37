-- ===== src/Tests/Mmaps.antt =====
-- Three modules, and one that is added between them.
use sp_rtrace.Prelude.{ℕ, ◌^◌, ◌<◌, false, [], ◌∷◌, ◌≡◌, refl, some, All, inl, inr, arith}
use sp_rtrace.Resolve.SortedArray.{Sarray, IsSorted, sarray_add, sarray_find, search_items, shift}
use sp_rtrace.Resolve.Mmaps.{RsMmap, mmap_compare, rs_mmap_find_module, add_module}
use sp_rtrace.Resolve.Mmaps.Compared.{IsMapping, Precedes, Covers, Apart}
use sp_rtrace.Resolve.Mmaps.Lookup.{IsOneOf, add_module-rs_mmap_find_module}

abbrev module_at : ℕ → ℕ → ℕ → RsMmap
module_at id from to = record {
  id = id;
  module_name = b'/' ∷ [];
  from = from;
  to = to;
  is_absolute = false;
}

abbrev loaded : Sarray RsMmap
loaded = record {
  items = module_at 0 4096 8192 ∷ module_at 1 8192 12288 ∷ module_at 2 20480 24576 ∷ [];
  limit = 4;
}

abbrev added : RsMmap
added = module_at 3 12288 16384

is_mapping : (id from to : ℕ) → from < to → to < 2 ^ 63 → IsMapping (module_at id from to)
is_mapping id from to h k = record { proper = h; low = k }

loaded-IsMapping : All IsMapping loaded.items
loaded-IsMapping = (
  is_mapping 0 4096 8192 (omega arith) (omega arith),
  (
    is_mapping 1 8192 12288 (omega arith) (omega arith),
    (is_mapping 2 20480 24576 (omega arith) (omega arith), tt),
  ),
)

added-IsMapping : IsMapping added
added-IsMapping = is_mapping 3 12288 16384 (omega arith) (omega arith)

loaded-IsSorted : IsSorted Precedes loaded.items
loaded-IsSorted =
    let (a, (b, (c, end))) = loaded-IsMapping in
    (
      (
        record { former = a; latter = b; apart = omega arith },
        (record { former = a; latter = c; apart = omega arith }, tt),
      ),
      ((record { former = b; latter = c; apart = omega arith }, tt), (tt, tt)),
    )

added-Apart : All (Apart added) loaded.items
added-Apart =
    let (a, (b, (c, end))) = loaded-IsMapping in
    (
      inr (record { former = a; latter = added-IsMapping; apart = omega arith }),
      (
        inr (record { former = b; latter = added-IsMapping; apart = omega arith }),
        (inl (record { former = added-IsMapping; latter = c; apart = omega arith }), tt),
      ),
    )

add_module-rs_mmap_find_module_example :
    let t = add_module added loaded in
    let ms = added ∷ loaded.items in
    IsSorted Precedes t.items
    × ((addr : ℕ) (m : RsMmap)
        → addr < 2 ^ 63
        → IsOneOf ms m
        → Covers addr m
        → (y : RsMmap) × (rs_mmap_find_module t addr ≡ some y))
    × ((addr : ℕ) (y : RsMmap)
        → addr < 2 ^ 63
        → rs_mmap_find_module t addr ≡ some y
        → IsOneOf ms y × Covers addr y)
add_module-rs_mmap_find_module_example =
    add_module-rs_mmap_find_module added loaded added-IsMapping loaded-IsMapping loaded-IsSorted
      added-Apart

found_test : rs_mmap_find_module (add_module added loaded) 16000 ≡ some added
unfolding rs_mmap_find_module sarray_find search_items sarray_add shift mmap_compare
found_test = refl

-- The end of a mapping counts as a part of it: the start of the added module is found in the one in
-- front of it.
end_test : rs_mmap_find_module (add_module added loaded) 12288 ≡ some (module_at 1 8192 12288)
unfolding rs_mmap_find_module sarray_find search_items sarray_add shift mmap_compare
end_test = refl
