-- ===== src/Resolve/SortedArray/Added.antt =====
-- What `sarray_add` does to the items.
use sp_rtrace.Prelude.{
  ℕ, suc, ◌+◌, List, [], ◌∷◌, ◌≡◌, refl, sym, ap, ap₂, append-nil, ◌∙◌, subst, some, length,
  get_elem?, set, arith, All, Bool-cases, inl, inr, if◌then◌else◌,
}
use sp_rtrace.Resolve.SortedArray.{
  Sign, is_less, Sarray, shift, shift_at, sarray_add, IsSplit, IsBelow, IsSorted,
}
use sp_rtrace.Resolve.SortedArray.Onto.{
  onto, get-onto, set-onto, onto_reversed, length-onto, onto-All, Keeps, onto-Keeps,
}

module _ {A : Type 0} (do_compare : A → A → Sign) where
  -- The item behind the last one of `rs` that it is not less than.
  unfoldable pub place : A → List A → List A → List A
  place item [] ys = item ∷ ys
  place item (x ∷ rs) ys =
      let moved = place item rs (x ∷ ys) in
      if is_less (do_compare item x) then moved else onto (x ∷ rs) (item ∷ ys)

  shift-place :
      (item : A) (rs : List A) (z : A) (ys : List A)
      → shift do_compare (length rs) item (onto rs (z ∷ ys)) ≡ place item rs ys
  unfolding shift place onto
  shift-place item [] z ys = refl
  shift-place item (x ∷ rs) z ys =
      let n = length rs in
      let array = onto rs (x ∷ z ∷ ys) in
      let found : get_elem? array n ≡ some x =
        ap (get_elem? array) (omega arith) ∙ get-onto rs (x ∷ z ∷ ys) 0 in
      let here : (v : A) → set array (suc n) v ≡ onto rs (x ∷ v ∷ ys) =
        λ v. ap (λ i. set array i v) (omega arith) ∙ set-onto rs (x ∷ z ∷ ys) 1 v in
      ap (shift_at do_compare (shift do_compare n item) n item array) found
      ∙ ap₂ (λ a b. if is_less (do_compare item x) then a else b)
          (ap (shift do_compare n item) (here x) ∙ shift-place item rs x (x ∷ ys)) (here item)

  items-place :
      (item : A) (s : Sarray A)
      → (sarray_add do_compare item s).items ≡ place item (onto s.items []) []
  unfolding sarray_add
  items-place item s =
      let l : length (onto s.items []) ≡ length s.items = omega (arith, length-onto s.items []) in
      ap₂ (λ n array. shift do_compare n item array) (sym l)
        (sym (onto_reversed s.items (item ∷ [])))
      ∙ shift-place item (onto s.items []) item []

  place-get : (item : A) (rs ys : List A) → (i : ℕ) × (get_elem? (place item rs ys) i ≡ some item)
  unfolding place
  place-get item [] ys = (0, refl)
  place-get item (x ∷ rs) ys = elim (Bool-cases (is_less (do_compare item x))) [
    | inl less_ ↦ rw less_ (place-get item rs (x ∷ ys))
    | inr stops ↦ rw stops (length (x ∷ rs) + 0, get-onto (x ∷ rs) (item ∷ ys) 0)
  ]

  place-Keeps : (item : A) (rs ys : List A) → Keeps (onto rs ys) (place item rs ys)
  unfolding place onto
  place-Keeps item [] ys = λ i x e. (suc i, e)
  place-Keeps item (x ∷ rs) ys = elim (Bool-cases (is_less (do_compare item x))) [
    | inl less_ ↦ rw less_ (place-Keeps item rs (x ∷ ys))
    | inr stops ↦ rw stops (onto-Keeps (x ∷ rs) ys (item ∷ ys) (λ i y e. (suc i, e)))
  ]

module _ {A : Type 0} (do_compare : A → A → Sign) (R : A → A → Type 0) where
  -- The last one first: each item has the relation to every earlier one.
  abbrev IsDown : List A → Type 0
  IsDown [] = Unit
  IsDown (x ∷ rs) = All (λ r. R r x) rs × IsDown rs

  record Parts (rs ys : List A) : Type 0 where
    pub down : IsDown rs
    pub up : IsSorted R ys
    pub across : All (λ r. IsBelow R r ys) rs

  heads : (x : A) (ys rs : List A) → All (λ r. IsBelow R r (x ∷ ys)) rs → All (λ r. R r x) rs
  heads x ys [] h = tt
  heads x ys (r ∷ rs) h = (h.0.0, heads x ys rs h.1)

  tails :
      (x : A) (ys rs : List A) → All (λ r. IsBelow R r (x ∷ ys)) rs → All (λ r. IsBelow R r ys) rs
  tails x ys [] h = tt
  tails x ys (r ∷ rs) h = (h.0.1, tails x ys rs h.1)

  both :
      (x : A) (ys rs : List A)
      → All (λ r. R r x) rs
      → All (λ r. IsBelow R r ys) rs
      → All (λ r. IsBelow R r (x ∷ ys)) rs
  both x ys [] h k = tt
  both x ys (r ∷ rs) h k = ((h.0, k.0), both x ys rs h.1 k.1)

  Parts-of : (rs ys : List A) → IsSorted R (onto rs ys) → Parts rs ys
  unfolding onto
  Parts-of [] ys h = record { down = tt; up = h; across = tt }
  Parts-of (x ∷ rs) ys h =
      let p = Parts-of rs (x ∷ ys) h in
      record {
        down = (heads x ys rs p.across, p.down);
        up = p.up.1;
        across = (p.up.0, tails x ys rs p.across);
      }

  IsSorted-Parts : (rs ys : List A) → Parts rs ys → IsSorted R (onto rs ys)
  unfolding onto
  IsSorted-Parts [] ys p = p.up
  IsSorted-Parts (x ∷ rs) ys p = IsSorted-Parts rs (x ∷ ys) (record {
    down = p.down.1;
    up = (p.across.0, p.up);
    across = both x ys rs p.down.0 p.across.1;
  })

  module _ (trans : (a b c : A) → R a b → R b c → R a c) where
    below_item :
        (item x : A) (rs : List A) → R x item → All (λ r. R r x) rs → All (λ r. R r item) rs
    below_item item x [] h k = tt
    below_item item x (r ∷ rs) h k = (trans r x item k.0 h, below_item item x rs h k.1)

    place-IsSorted :
        (item : A) (rs ys : List A)
        → Parts rs ys
        → IsBelow R item ys
        → All (IsSplit do_compare R item) rs
        → IsSorted R (place do_compare item rs ys)
    unfolding place
    place-IsSorted item [] ys p h splits = (h, p.up)
    place-IsSorted item (x ∷ rs) ys p h splits = elim (Bool-cases (is_less (do_compare item x))) [
      | inl less_ ↦ rw less_ (
          place-IsSorted item rs (x ∷ ys)
            (record {
              down = p.down.1;
              up = (p.across.0, p.up);
              across = both x ys rs p.down.0 p.across.1;
            })
            (splits.0.0 less_, h) splits.1)
      | inr stops ↦
          (let le = splits.0.1 stops in
            rw stops (
              IsSorted-Parts (x ∷ rs) (item ∷ ys) (record {
                down = p.down;
                up = (h, p.up);
                across = both item ys (x ∷ rs) (le, below_item item x rs le p.down.0) p.across;
              })))
    ]

    -- Where an item belongs on one side of each element, `sarray_add` keeps the array in order.
    pub sarray_add-IsSorted :
        (item : A) (s : Sarray A)
        → IsSorted R s.items
        → All (IsSplit do_compare R item) s.items
        → IsSorted R (sarray_add do_compare item s).items
    sarray_add-IsSorted item s h splits =
        let rs = onto s.items [] in
        let whole : onto rs [] ≡ s.items = onto_reversed s.items [] ∙ append-nil s.items in
        let parts = Parts-of rs [] (subst (IsSorted R) (sym whole) h) in
        subst (IsSorted R) (sym (items-place do_compare item s)) (
          place-IsSorted item rs [] parts tt
            (onto-All (IsSplit do_compare R item) s.items [] splits tt))

module _ {A : Type 0} (do_compare : A → A → Sign) where
  place-All :
      (P : A → Type 0) (item : A) (rs ys : List A)
      → P item
      → All P rs
      → All P ys
      → All P (place do_compare item rs ys)
  unfolding place
  place-All P item [] ys p h k = (p, k)
  place-All P item (x ∷ rs) ys p h k = elim (Bool-cases (is_less (do_compare item x))) [
    | inl less_ ↦ rw less_ (place-All P item rs (x ∷ ys) p h.1 (h.0, k))
    | inr stops ↦ rw stops (onto-All P (x ∷ rs) (item ∷ ys) h (p, k))
  ]

  -- Nothing else is stored afterwards.
  pub sarray_add-All :
      (P : A → Type 0) (item : A) (s : Sarray A)
      → P item
      → All P s.items
      → All P (sarray_add do_compare item s).items
  sarray_add-All P item s p h =
      subst (All P) (sym (items-place do_compare item s))
        (place-All P item (onto s.items []) [] p (onto-All P s.items [] h tt) tt)

  -- Afterwards the item and all elements are stored.
  pub sarray_add-stored :
      (item : A) (s : Sarray A)
      → let t = sarray_add do_compare item s in
        ((i : ℕ) × (get_elem? t.items i ≡ some item)) × Keeps s.items t.items
  sarray_add-stored item s =
      let rs = onto s.items [] in
      let whole : onto rs [] ≡ s.items = onto_reversed s.items [] ∙ append-nil s.items in
      let placed = items-place do_compare item s in
      let (i, stored) = place-get do_compare item rs [] in
      (
        (i, ap (λ l. get_elem? l i) placed ∙ stored),
        λ k x e.
            let (j, kept) =
              place-Keeps do_compare item rs [] k x (ap (λ l. get_elem? l k) whole ∙ e) in
            (j, ap (λ l. get_elem? l j) placed ∙ kept),
      )
