-- ===== src/Resolve/SortedArray.antt =====
-- The sorted array of src/rtrace-resolve/sarray.c.
pub mod Onto
pub mod Added
pub mod Found
use sp_rtrace.Prelude.{
  ℕ, zero, suc, ◌+◌, ◌-◌, ◌*◌, ◌/◌, Bool, true, false, List, [], ◌∷◌, ◌++◌, Option, none, some, leb,
  ◌==◌, if◌then◌else◌, length, get_elem?, set, All, ◌≡◌, ◌≢◌,
}

-- The sign of what a comparison function returns.
pub data Sign : Type 0 where
  less : Sign
  same : Sign
  greater : Sign

abbrev pub is_less : Sign → Bool
is_less less = true
is_less same = false
is_less greater = false

-- The first `size` elements of the data, and the room that is allocated.
pub record Sarray (A : Type 0) : Type 0 where
  pub items : List A
  pub limit : ℕ

module _ {A : Type 0} (do_compare : A → A → Sign) where
  -- `data[idx]` is moved up where the item is less; `go` is the rest of the loop.
  abbrev pub shift_at : (List A → List A) → ℕ → A → List A → Option A → List A
  shift_at go idx item array none = array
  shift_at go idx item array (some x) =
      let moved = go (set array (suc idx) x) in
      if is_less (do_compare item x) then moved else set array (suc idx) item

  -- The loop, with the item stored where it ends.
  unfoldable pub shift : ℕ → A → List A → List A
  shift zero item array = set array 0 item
  shift (suc idx) item array = shift_at (shift idx item) idx item array (get_elem? array idx)

  -- `sarray_add`; before the loop, the new place may hold anything, here the item.
  unfoldable pub sarray_add : A → Sarray A → Sarray A
  sarray_add item s = record {
    items = shift (length s.items) item (s.items ++ item ∷ []);
    limit = if length s.items == s.limit then s.limit * 2 else s.limit;
  }

  -- One round of the search: the answer, or the rest of the loop below or above.
  abbrev pub compared : Sign → A → Option A → Option A → Option A
  compared less x below above = below
  compared same x below above = some x
  compared greater x below above = above

  abbrev pub search_at : A → Option A → Option A → Option A → Option A
  search_at item none below above = none
  search_at item (some x) below above = compared (do_compare item x) x below above

  -- The loop from `low` to below `end`, which is `high + 1`, with fuel for as many rounds.
  unfoldable pub search_items : ℕ → A → List A → ℕ → ℕ → Option A
  search_items zero item array low end = none
  search_items (suc f) item array low end =
      let half = (end - 1 + low) / 2 in
      let below = search_items f item array low half in
      let above = search_items f item array (half + 1) end in
      if leb end low then none else search_at item (get_elem? array half) below above

  unfoldable pub sarray_find : A → Sarray A → Option A
  sarray_find item s = search_items (length s.items) item s.items 0 (length s.items)

  -- The signs that an item gets against elements in order: not the same as any
  -- behind one that it is less than, or in front of one that it is greater than.
  pub record IsAligned (R : A → A → Type 0) (item : A) : Type 0 where
    pub less_on : (a b : A) → R a b → do_compare item a ≡ less → do_compare item b ≢ same
    pub greater_on : (a b : A) → R a b → do_compare item b ≡ greater → do_compare item a ≢ same

  -- The side of an element on which an item belongs.
  abbrev pub IsSplit : (A → A → Type 0) → A → A → Type 0
  IsSplit R item x =
      (is_less (do_compare item x) ≡ true → R item x)
      × (is_less (do_compare item x) ≡ false → R x item)

module _ {A : Type 0} (R : A → A → Type 0) where
  abbrev pub IsBelow : A → List A → Type 0
  IsBelow a = All (λ b. R a b)

  -- Each item stands in the relation to every later one.
  abbrev pub IsSorted : List A → Type 0
  IsSorted [] = Unit
  IsSorted (a ∷ rest) = IsBelow a rest × IsSorted rest
