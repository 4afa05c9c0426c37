-- ===== src/Resolve/SortedArray/Onto.antt =====
-- Lists of which a part is reversed.
use sp_rtrace.Prelude.{
  ℕ, zero, suc, ◌+◌, List, [], ◌∷◌, ◌++◌, ◌≡◌, refl, ap, ◌∙◌, some, length, get_elem?, set, arith,
  All,
}

-- The items `rs`, the last one first, in front of `ys`.
unfoldable pub onto : {A : Type 0} → List A → List A → List A
onto [] ys = ys
onto (x ∷ rs) ys = onto rs (x ∷ ys)

module _ {A : Type 0} where
  pub get-onto : (rs ys : List A) (k : ℕ) → get_elem? (onto rs ys) (length rs + k) ≡ get_elem? ys k
  unfolding onto
  get-onto [] ys k = ap (get_elem? ys) (omega arith)
  get-onto (x ∷ rs) ys k =
      let e : length (x ∷ rs) + k ≡ length rs + suc k = omega arith in
      ap (get_elem? (onto rs (x ∷ ys))) e ∙ get-onto rs (x ∷ ys) (suc k)

  pub set-onto :
      (rs ys : List A) (k : ℕ) (v : A) → set (onto rs ys) (length rs + k) v ≡ onto rs (set ys k v)
  unfolding onto
  set-onto [] ys k v = ap (λ i. set ys i v) (omega arith)
  set-onto (x ∷ rs) ys k v =
      let e : length (x ∷ rs) + k ≡ length rs + suc k = omega arith in
      ap (λ i. set (onto rs (x ∷ ys)) i v) e ∙ set-onto rs (x ∷ ys) (suc k) v

  onto-onto : (xs zs ys : List A) → onto (onto xs zs) ys ≡ onto zs (xs ++ ys)
  unfolding onto
  onto-onto [] zs ys = refl
  onto-onto (x ∷ xs) zs ys = onto-onto xs (x ∷ zs) ys

  pub onto_reversed : (xs ys : List A) → onto (onto xs []) ys ≡ xs ++ ys
  unfolding onto
  onto_reversed xs ys = onto-onto xs [] ys

  pub length-onto : (xs ys : List A) → length (onto xs ys) ≡ length xs + length ys
  unfolding onto
  length-onto [] ys = omega arith
  length-onto (x ∷ xs) ys = let ih = length-onto xs (x ∷ ys) in omega (arith, ih)

  pub onto-All : (P : A → Type 0) (xs ys : List A) → All P xs → All P ys → All P (onto xs ys)
  unfolding onto
  onto-All P [] ys h k = k
  onto-All P (x ∷ xs) ys h k = onto-All P xs (x ∷ ys) h.1 (h.0, k)

  -- What stands in one list stands in the other, too.
  abbrev pub Keeps : List A → List A → Type 0
  Keeps ys zs = (i : ℕ) (x : A) → get_elem? ys i ≡ some x → (j : ℕ) × (get_elem? zs j ≡ some x)

  Keeps-cons : (x : A) (ys zs : List A) → Keeps ys zs → Keeps (x ∷ ys) (x ∷ zs)
  Keeps-cons x ys zs h zero y e = (0, e)
  Keeps-cons x ys zs h (suc i) y e = let (j, k) = h i y e in (suc j, k)

  pub onto-Keeps : (rs ys zs : List A) → Keeps ys zs → Keeps (onto rs ys) (onto rs zs)
  unfolding onto
  onto-Keeps [] ys zs h = h
  onto-Keeps (x ∷ rs) ys zs h = onto-Keeps rs (x ∷ ys) (x ∷ zs) (Keeps-cons x ys zs h)
