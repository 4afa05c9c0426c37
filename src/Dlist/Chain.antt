-- ===== src/Dlist/Chain.antt =====
-- What a list on the heap stands for: the addresses of its nodes from the first on.
use sp_rtrace.Prelude.{
  ℕ, ◌<◌, Bool, true, false, List, [], ◌∷◌, ◌++◌, ◌≡◌, refl, ◌∙◌, sym, ◌==◌, ◌||◌, arith, All,
}
use sp_rtrace.Dlist.{Heap, Dlist, set_next, set_prev}

abbrev pub first_or : List ℕ → ℕ → ℕ
first_or [] d = d
first_or (x ∷ xs) d = x

abbrev pub last_or : ℕ → List ℕ → ℕ
last_or d [] = d
last_or d (x ∷ xs) = last_or x xs

abbrev pub has : ℕ → List ℕ → Bool
has a [] = false
has a (x ∷ xs) = a == x || has a xs

abbrev pub Unlike : List ℕ → Type 0
Unlike [] = Unit
Unlike (x ∷ xs) = (has x xs ≡ false) × Unlike xs

-- The links of the nodes `xs`, which stand between `before` and `after`.
abbrev pub Chain : Heap → ℕ → List ℕ → ℕ → Type 0
Chain h before [] after = Unit
Chain h before (x ∷ xs) after =
    (h.prev x ≡ before) × (h.next x ≡ first_or xs after) × Chain h x xs after

pub record IsList (xs : List ℕ) (t : Dlist × Heap) : Type 0 where
  pub nonnull : All (λ x. 0 < x) xs
  pub unlike : Unlike xs
  pub tail : t.0.tail ≡ first_or xs 0
  pub head : t.0.head ≡ last_or 0 xs
  pub chain : Chain t.1 0 xs 0

pub first_or-append : (xs ys : List ℕ) (d : ℕ) → first_or (xs ++ ys) d ≡ first_or xs (first_or ys d)
first_or-append [] ys d = refl
first_or-append (x ∷ xs) ys d = refl

pub last_or-append : (xs ys : List ℕ) (d : ℕ) → last_or d (xs ++ ys) ≡ last_or (last_or d xs) ys
last_or-append [] ys d = refl
last_or-append (x ∷ xs) ys d = last_or-append xs ys x

pub has-append : (a : ℕ) (xs ys : List ℕ) → has a (xs ++ ys) ≡ (has a xs || has a ys)
has-append a [] ys = refl
has-append a (x ∷ xs) ys = ground (arith, has-append a xs ys)

pub has-last : (x : ℕ) (xs : List ℕ) → has (last_or x xs) (x ∷ xs) ≡ true
has-last x [] = ground arith
has-last x (y ∷ xs) = ground (arith, has-last y xs)

pub has_ne : (a b : ℕ) (xs : List ℕ) → has a xs ≡ true → has b xs ≡ false → (b == a) ≡ false
has_ne a b [] h k = cc
has_ne a b (x ∷ xs) h k = ground (arith, has_ne a b xs)

pub Chain-append :
    (h : Heap) (before : ℕ) (xs ys : List ℕ) (after : ℕ)
    → Chain h before xs (first_or ys after)
    → Chain h (last_or before xs) ys after
    → Chain h before (xs ++ ys) after
Chain-append h before [] ys after c d = d
Chain-append h before (x ∷ xs) ys after c d =
    (c.0, c.1 ∙ sym (first_or-append xs ys after), Chain-append h x xs ys after c.2 d)

pub Chain-split :
    (h : Heap) (before : ℕ) (xs ys : List ℕ) (after : ℕ)
    → Chain h before (xs ++ ys) after
    → Chain h before xs (first_or ys after) × Chain h (last_or before xs) ys after
Chain-split h before [] ys after c = (tt, c)
Chain-split h before (x ∷ xs) ys after c =
    let (d, e) = Chain-split h x xs ys after c.2 in ((c.0, c.1 ∙ first_or-append xs ys after, d), e)

-- Links outside the chain may change.
pub Chain-set_next :
    (h : Heap) (before : ℕ) (xs : List ℕ) (after a v : ℕ)
    → has a xs ≡ false
    → Chain h before xs after
    → Chain (set_next a v h) before xs after
unfolding set_next
Chain-set_next h before [] after a v out c = tt
Chain-set_next h before (x ∷ xs) after a v out c =
    (c.0, ground (arith, out, c.1), Chain-set_next h x xs after a v (ground (arith, out)) c.2)

pub Chain-set_prev :
    (h : Heap) (before : ℕ) (xs : List ℕ) (after a v : ℕ)
    → has a xs ≡ false
    → Chain h before xs after
    → Chain (set_prev a v h) before xs after
unfolding set_prev
Chain-set_prev h before [] after a v out c = tt
Chain-set_prev h before (x ∷ xs) after a v out c =
    (ground (arith, out, c.0), c.1, Chain-set_prev h x xs after a v (ground (arith, out)) c.2)

-- The last node is linked to another one behind it.
pub relink_last :
    (h : Heap) (before : ℕ) (xs : List ℕ) (after v : ℕ)
    → Unlike xs
    → Chain h before xs after
    → Chain (set_next (last_or before xs) v h) before xs v
unfolding set_next
relink_last h before [] after v u c = tt
relink_last h before (x ∷ []) after v u c = (c.0, ground arith, tt)
relink_last h before (x ∷ y ∷ xs) after v u c = (
  c.0,
  rw (has_ne (last_or y xs) x (y ∷ xs) (has-last y xs) u.0) c.1,
  relink_last h x (y ∷ xs) after v u.1 c.2,
)

-- The first node is linked to another one in front of it.
pub relink_first :
    (h : Heap) (before : ℕ) (xs : List ℕ) (after v : ℕ)
    → Unlike xs
    → Chain h before xs after
    → Chain (set_prev (first_or xs after) v h) v xs after
unfolding set_prev
relink_first h before [] after v u c = tt
relink_first h before (x ∷ xs) after v u c =
    (ground arith, c.1, Chain-set_prev h x xs after x v u.0 c.2)
