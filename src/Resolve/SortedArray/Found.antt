-- ===== src/Resolve/SortedArray/Found.antt =====
-- The binary search of `sarray_find`.
use sp_rtrace.Prelude.{
  ℕ, zero, suc, ◌+◌, ◌-◌, ◌/◌, ◌≤◌, ◌<◌, false, List, [], ◌∷◌, ◌≡◌, ◌≢◌, refl, sym, ap, ◌∙◌, subst,
  if◌then◌else◌, Option, none, some, leb, ltb, length, get_elem?, arith, Bool-cases, inl, inr,
  ltb→lt,
}
use sp_rtrace.Resolve.SortedArray.{
  Sign, less, same, greater, Sarray, compared, search_at, search_items, sarray_find, IsAligned,
  IsBelow, IsSorted,
}

module _ {A : Type 0} (do_compare : A → A → Sign) (R : A → A → Type 0) where
  some_inj : (x y : A) → Path (Option A) (some x) (some y) → x ≡ y
  some_inj x y h = ap (λ o. value x o) h
    where
      value : A → Option A → A
      value d none = d
      value d (some a) = a

  below_get :
      (a : A) (xs : List A) (j : ℕ) (y : A) → IsBelow R a xs → get_elem? xs j ≡ some y → R a y
  below_get a [] j y h e = absurd cc
  below_get a (x ∷ xs) zero y h e = subst (λ b. R a b) (some_inj x y e) h.0
  below_get a (x ∷ xs) (suc j) y h e = below_get a xs j y h.1 e

  sorted_get :
      (xs : List A) (i j : ℕ) (x y : A)
      → IsSorted R xs
      → get_elem? xs i ≡ some x
      → get_elem? xs j ≡ some y
      → i < j
      → R x y
  sorted_get [] i j x y h e k l = absurd cc
  sorted_get (a ∷ xs) zero zero x y h e k l = absurd (omega arith)
  sorted_get (a ∷ xs) zero (suc j) x y h e k l =
      subst (λ b. R b y) (some_inj a x e) (below_get a xs j y h.0 k)
  sorted_get (a ∷ xs) (suc i) zero x y h e k l = absurd (omega arith)
  sorted_get (a ∷ xs) (suc i) (suc j) x y h e k l = sorted_get xs i j x y h.1 e k (omega (arith, l))

  get_some : (xs : List A) (i : ℕ) → i < length xs → (x : A) × (get_elem? xs i ≡ some x)
  get_some [] i h = absurd (omega arith)
  get_some (x ∷ xs) zero h = (x, refl)
  get_some (x ∷ xs) (suc i) h = get_some xs i (omega (arith, h))

  not_both : (a : Sign) → a ≢ same → a ≡ same → ⊥
  not_both a h k = h k

  -- Either of three.
  data Case (s : Sign) : Type 0 where
    is_less_ : s ≡ less → Case s
    is_same_ : s ≡ same → Case s
    is_greater_ : s ≡ greater → Case s

  sign_cases : (s : Sign) → Case s
  sign_cases less = is_less_ refl
  sign_cases same = is_same_ refl
  sign_cases greater = is_greater_ refl

  get_below : (xs : List A) (i : ℕ) (x : A) → get_elem? xs i ≡ some x → i < length xs
  get_below [] i x h = absurd cc
  get_below (y ∷ xs) zero x h = omega arith
  get_below (y ∷ xs) (suc i) x h = omega (arith, get_below xs i x h)

  same_place :
      (xs : List A) (i j : ℕ) (x y : A)
      → get_elem? xs i ≡ some x
      → get_elem? xs j ≡ some y
      → i ≡ j
      → x ≡ y
  same_place xs i j x y e k l = some_inj x y (sym e ∙ ap (get_elem? xs) l ∙ k)

  before_less :
      (item : A) (aligned : IsAligned do_compare R item) (xs : List A) (half i : ℕ) (y x : A)
      → IsSorted R xs
      → get_elem? xs half ≡ some y
      → get_elem? xs i ≡ some x
      → do_compare item y ≡ less
      → do_compare item x ≡ same
      → i < half
  before_less item aligned xs half i y x h got e c k = elim (Bool-cases (ltb half i)) [
    | inl l ↦ absurd (aligned.less_on y x (sorted_get xs half i y x h got e (ltb→lt _ _ l)) c k)
    | inr l ↦ elim (Bool-cases (ltb i half)) [
      | inl m ↦ ltb→lt _ _ m
      | inr m ↦
          (let both : half ≡ i = ground (arith, l, m) in
            absurd (
              not_both less (λ z. cc)
                (sym (ap (do_compare item) (same_place xs i half x y e got (sym both)) ∙ c) ∙ k)))
    ]
  ]

  behind_greater :
      (item : A) (aligned : IsAligned do_compare R item) (xs : List A) (half i : ℕ) (y x : A)
      → IsSorted R xs
      → get_elem? xs half ≡ some y
      → get_elem? xs i ≡ some x
      → do_compare item y ≡ greater
      → do_compare item x ≡ same
      → half < i
  behind_greater item aligned xs half i y x h got e c k = elim (Bool-cases (ltb i half)) [
    | inl l ↦ absurd (aligned.greater_on x y (sorted_get xs i half x y h e got (ltb→lt _ _ l)) c k)
    | inr l ↦ elim (Bool-cases (ltb half i)) [
      | inl m ↦ ltb→lt _ _ m
      | inr m ↦
          (let both : half ≡ i = ground (arith, l, m) in
            absurd (
              not_both greater (λ z. cc)
                (sym (ap (do_compare item) (same_place xs i half x y e got (sym both)) ∙ c) ∙ k)))
    ]
  ]

  -- An item between the bounds is found, or one that is the same.
  search_items-same :
      (f : ℕ) (item : A) (aligned : IsAligned do_compare R item) (xs : List A) (low end i : ℕ)
      (x : A)
      → IsSorted R xs
      → get_elem? xs i ≡ some x
      → do_compare item x ≡ same
      → low ≤ i
      → i < end
      → end ≤ length xs
      → end ≤ low + f
      → (y : A) × (search_items do_compare f item xs low end ≡ some y) × (do_compare item y ≡ same)
  unfolding search_items
  search_items-same zero item aligned xs low end i x h e k l u b enough =
      absurd (omega (arith, l, u, enough))
  search_items-same (suc f) item aligned xs low end i x h e k l u b enough =
      let half = (end - 1 + low) / 2 in
      let go : leb end low ≡ false = ground (arith, l, u) in
      let at_most : half < end = omega (arith, l, u) in
      let at_least : low ≤ half = omega (arith, l, u) in
      let (y, got) = get_some xs half (omega (arith, at_most, b)) in
      let below = search_items do_compare f item xs low half in
      let above = search_items do_compare f item xs (half + 1) end in
      let step : search_items do_compare (suc f) item xs low end
          ≡ compared do_compare (do_compare item y) y below above =
        ap (λ b. if b then none else search_at do_compare item (get_elem? xs half) below above) go
        ∙ ap (λ o. search_at do_compare item o below above) got in
      elim (sign_cases (do_compare item y)) [
        | is_same_ c ↦ (y, step ∙ ap (λ s. compared do_compare s y below above) c, c)
        | is_less_ c ↦
            (let before = before_less item aligned xs half i y x h got e c k in
              let (z, found, equal) =
                search_items-same f item aligned xs low half i x h e k l before
                  (omega (arith, at_most, b)) (omega (arith, at_most, enough)) in
              (z, step ∙ ap (λ s. compared do_compare s y below above) c ∙ found, equal))
        | is_greater_ c ↦
            (let behind = behind_greater item aligned xs half i y x h got e c k in
              let (z, found, equal) =
                search_items-same f item aligned xs (half + 1) end i x h e k (omega (arith, behind))
                  u b (omega (arith, at_least, enough)) in
              (z, step ∙ ap (λ s. compared do_compare s y below above) c ∙ found, equal))
      ]

  -- An element that compares the same is found.
  pub sarray_find-same :
      (item x : A) (s : Sarray A) (i : ℕ)
      → IsAligned do_compare R item
      → IsSorted R s.items
      → get_elem? s.items i ≡ some x
      → do_compare item x ≡ same
      → (y : A) × (sarray_find do_compare item s ≡ some y) × (do_compare item y ≡ same)
  unfolding sarray_find
  sarray_find-same item x s i aligned h e k =
      search_items-same (length s.items) item aligned s.items 0 (length s.items) i x h e k
        (omega arith) (get_below s.items i x e) (omega arith) (omega arith)

  -- What is found is stored and compares the same.
  abbrev pub IsHit : A → List A → A → Type 0
  IsHit item xs y = (k : ℕ) × (get_elem? xs k ≡ some y) × (do_compare item y ≡ same)

  compared-IsHit :
      (item x : A) (sign : Sign) (below above : Option A) (xs : List A) (k : ℕ) (y : A)
      → get_elem? xs k ≡ some x
      → do_compare item x ≡ sign
      → (below ≡ some y → IsHit item xs y)
      → (above ≡ some y → IsHit item xs y)
      → compared do_compare sign x below above ≡ some y
      → IsHit item xs y
  compared-IsHit item x less below above xs k y got c f g e = f e
  compared-IsHit item x same below above xs k y got c f g e =
      (k, got ∙ e, ap (do_compare item) (sym (some_inj x y e)) ∙ c)
  compared-IsHit item x greater below above xs k y got c f g e = g e

  search_at-IsHit :
      (item : A) (o below above : Option A) (xs : List A) (k : ℕ) (y : A)
      → get_elem? xs k ≡ o
      → (below ≡ some y → IsHit item xs y)
      → (above ≡ some y → IsHit item xs y)
      → search_at do_compare item o below above ≡ some y
      → IsHit item xs y
  search_at-IsHit item none below above xs k y got f g e = absurd cc
  search_at-IsHit item (some x) below above xs k y got f g e =
      compared-IsHit item x (do_compare item x) below above xs k y got refl f g e

  search_items-IsHit :
      (f : ℕ) (item : A) (xs : List A) (low end : ℕ) (y : A)
      → search_items do_compare f item xs low end ≡ some y
      → IsHit item xs y
  unfolding search_items
  search_items-IsHit zero item xs low end y e = absurd cc
  search_items-IsHit (suc f) item xs low end y e =
      let half = (end - 1 + low) / 2 in
      elim (Bool-cases (leb end low)) [
        | inl over ↦ absurd (let k = rw over at e in cc)
        | inr goes ↦
            search_at-IsHit item (get_elem? xs half) (search_items do_compare f item xs low half)
              (search_items do_compare f item xs (half + 1) end) xs half y refl
              (search_items-IsHit f item xs low half y)
              (search_items-IsHit f item xs (half + 1) end y) (rw goes at e)
      ]

  pub sarray_find-IsHit :
      (item : A) (s : Sarray A) (y : A)
      → sarray_find do_compare item s ≡ some y
      → IsHit item s.items y
  unfolding sarray_find
  sarray_find-IsHit item s y = search_items-IsHit (length s.items) item s.items 0 (length s.items) y
