-- ===== src/Dlist/Linked.antt =====
-- Lists of distinct nodes, and how a node is linked in and out.
use sp_rtrace.Prelude.{
  ℕ, ◌<◌, Bool, true, false, List, [], ◌∷◌, ◌++◌, ◌≡◌, refl, ◌∙◌, sym, ◌==◌, Option, none, some,
  arith, Bool-cases, inl, inr, All, ==_self,
}
use sp_rtrace.Dlist.{Heap}
use sp_rtrace.Dlist.Chain.{first_or, last_or, has, Unlike, Chain, has-append, Chain-append}

-- The function returns, with a result of which `P` holds.
abbrev pub Gives : {A : Type 0} → Option A → (A → Type 0) → Type 0
Gives none P = ⊥
Gives (some a) P = P a

module _ (n : ℕ) where
  pub Unlike-insert :
      (xs ys : List ℕ) → Unlike (xs ++ ys) → has n (xs ++ ys) ≡ false → Unlike (xs ++ n ∷ ys)
  Unlike-insert [] ys u out = (out, u)
  Unlike-insert (x ∷ xs) ys u out = (
    ground (arith, out, has-append x xs ys, has-append x xs (n ∷ ys), u.0),
    Unlike-insert xs ys u.1 (ground (arith, out)),
  )

  pub Unlike-remove :
      (xs ys : List ℕ)
      → Unlike (xs ++ n ∷ ys)
      → Unlike (xs ++ ys) × (has n xs ≡ false) × (has n ys ≡ false)
  Unlike-remove [] ys u = (u.1, refl, u.0)
  Unlike-remove (x ∷ xs) ys u =
      let (rest, in_xs, in_ys) = Unlike-remove xs ys u.1 in
      (
        (ground (arith, has-append x xs ys, has-append x xs (n ∷ ys), u.0), rest),
        ground (arith, has-append x xs (n ∷ ys), u.0, in_xs),
        in_ys,
      )

  pub All-insert :
      (xs ys : List ℕ) → 0 < n → All (λ x. 0 < x) (xs ++ ys) → All (λ x. 0 < x) (xs ++ n ∷ ys)
  All-insert [] ys h a = (h, a)
  All-insert (x ∷ xs) ys h a = (a.0, All-insert xs ys h a.1)

  pub All-remove :
      (xs ys : List ℕ) → All (λ x. 0 < x) (xs ++ n ∷ ys) → (0 < n) × All (λ x. 0 < x) (xs ++ ys)
  All-remove [] ys a = (a.0, a.1)
  All-remove (x ∷ xs) ys a = let (h, rest) = All-remove xs ys a.1 in (h, (a.0, rest))

pub Unlike-split :
    (xs ys : List ℕ)
    → Unlike (xs ++ ys)
    → Unlike xs × Unlike ys × ((a : ℕ) → has a xs ≡ true → has a ys ≡ false)
Unlike-split [] ys u = (tt, u, λ a h. cc)
Unlike-split (x ∷ xs) ys u =
    let (left, right, apart) = Unlike-split xs ys u.1 in
    (
      (ground (arith, has-append x xs ys, u.0), left),
      right,
      λ a h. ground (arith, apart a, h, has-append x xs ys, u.0),
    )

pub last_pos : (x : ℕ) (xs : List ℕ) → All (λ y. 0 < y) (x ∷ xs) → 0 < last_or x xs
last_pos x [] a = a.0
last_pos x (y ∷ xs) a = last_pos y xs a.1

-- A node with the right links between two chains makes one list of them.
pub joined :
    (h : Heap) (xs ys : List ℕ) (n : ℕ)
    → Chain h 0 xs n
    → h.prev n ≡ last_or 0 xs
    → h.next n ≡ first_or ys 0
    → Chain h n ys 0
    → Chain h 0 (xs ++ n ∷ ys) 0
joined h xs ys n c p q d = Chain-append h 0 xs (n ∷ ys) 0 c (p, q, d)

pub All-split : (P : ℕ → Type 0) (xs ys : List ℕ) → All P (xs ++ ys) → All P xs × All P ys
All-split P [] ys a = (tt, a)
All-split P (x ∷ xs) ys a = let (b, c) = All-split P xs ys a.1 in ((a.0, b), c)

false_ne_true : Path Bool false true → ⊥
false_ne_true e = cc

pub has-tail : (a x : ℕ) (xs : List ℕ) → has a (x ∷ xs) ≡ false → has a xs ≡ false
has-tail a x xs h = ground (arith, h)

pub has-head : (a : ℕ) (xs : List ℕ) → has a (a ∷ xs) ≡ true
has-head a xs = rw (==_self a)

-- What is in the second part is not in the first.
pub not_left :
    (a : ℕ) (xs ys : List ℕ)
    → (has a xs ≡ true → has a ys ≡ false)
    → has a ys ≡ true
    → has a xs ≡ false
not_left a xs ys apart h = elim (Bool-cases (has a xs)) [
  | inl e ↦ absurd (false_ne_true (sym (apart e) ∙ h))
  | inr e ↦ e
]

pub has-split :
    (a : ℕ) (xs ys : List ℕ) → has a (xs ++ ys) ≡ false → (has a xs ≡ false) × (has a ys ≡ false)
has-split a [] ys h = (refl, h)
has-split a (x ∷ xs) ys h =
    let (b, c) = has-split a xs ys (has-tail a x (xs ++ ys) h) in (ground (arith, h, b), c)

pub nonzero : (n : ℕ) → 0 < n → (n == 0) ≡ false
nonzero n h = ground arith
