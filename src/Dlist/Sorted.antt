-- ===== src/Dlist/Sorted.antt =====
-- `dlist_add_sorted` and `dlist_find` refine an insertion into a list and a search of one.
use Prim.Native.Nat.{Ordering}
use sp_rtrace.Prelude.{
  ℕ, zero, suc, ◌<◌, ◌≤◌, true, false, List, [], ◌∷◌, ◌++◌, ◌≡◌, refl, ap, ◌∙◌, sym, subst, ◌==◌,
  ◌||◌, arith, All, if◌then◌else◌, length, Bool-cases, inl, inr,
}
use sp_rtrace.Dlist.{Heap, Dlist, is_gt, is_lt, find_place, dlist_add_sorted}
use sp_rtrace.Dlist.Chain.{last_or, has, Chain, IsList}
use sp_rtrace.Dlist.Linked.{Gives, nonzero}
use sp_rtrace.Dlist.Insert.{add_front-IsList, add_behind-IsList}

gt_not_lt : (o : Ordering) → is_gt o ≡ true → is_lt o ≡ false
gt_not_lt Ordering.lt h = cc
gt_not_lt Ordering.eq h = refl
gt_not_lt Ordering.gt h = refl

lt_not_gt : (o : Ordering) → is_lt o ≡ true → is_gt o ≡ false
lt_not_gt Ordering.lt h = refl
lt_not_gt Ordering.eq h = refl
lt_not_gt Ordering.gt h = cc

module _ (compare : ℕ → ℕ → Ordering) where
  -- Behind a node: past all that the new one is greater than.
  unfoldable pub insert_behind : ℕ → List ℕ → List ℕ
  insert_behind n [] = n ∷ []
  insert_behind n (y ∷ ys) =
      let rest = insert_behind n ys in if is_gt (compare n y) then y ∷ rest else n ∷ y ∷ ys

  unfoldable pub insert_sorted : ℕ → List ℕ → List ℕ
  insert_sorted n [] = n ∷ []
  insert_sorted n (x ∷ xs) = if is_lt (compare n x) then n ∷ x ∷ xs else x ∷ insert_behind n xs

  -- No node is greater than the next one.
  abbrev pub IsSorted : List ℕ → Type 0
  IsSorted [] = Unit
  IsSorted (x ∷ []) = Unit
  IsSorted (x ∷ y ∷ ys) = (is_gt (compare x y) ≡ false) × IsSorted (y ∷ ys)

  -- Where the loop stops behind `x`, with the nodes `ys` in front of the place and `zs` behind it.
  record Place (n x cur : ℕ) (xs : List ℕ) : Type 0 where
    ys : List ℕ
    zs : List ℕ
    whole : xs ≡ ys ++ zs
    stops : cur ≡ last_or x ys
    inserts : insert_behind n xs ≡ ys ++ n ∷ zs

  find_place-Place :
      (f n before x : ℕ) (xs : List ℕ) (h : Heap)
      → length xs ≤ f
      → All (λ y. 0 < y) xs
      → Chain h before (x ∷ xs) 0
      → Place n x (find_place compare f n x h) xs
  unfolding find_place insert_behind
  find_place-Place zero n before x [] h fuel pos c = record {
    ys = [];
    zs = [];
    whole = refl;
    stops = refl;
    inserts = refl;
  }
  find_place-Place zero n before x (y ∷ xs) h fuel pos c = absurd (omega arith)
  find_place-Place (suc f) n before x [] h fuel pos c =
      rw c.1 (record { ys = []; zs = []; whole = refl; stops = refl; inserts = refl })
  find_place-Place (suc f) n before x (y ∷ xs) h fuel pos c =
      elim (Bool-cases (is_gt (compare n y))) [
        | inl past ↦
            (let p = find_place-Place f n x y xs h (omega arith) pos.1 c.2 in
              rw (c.1, nonzero y pos.0, past)
                (record {
                  ys = y ∷ p.ys;
                  zs = p.zs;
                  whole = ap (λ l. y ∷ l) p.whole;
                  stops = p.stops;
                  inserts = rw past (ap (λ l. y ∷ l) p.inserts);
                }))
        | inr here ↦
            rw (c.1, nonzero y pos.0, here)
              (record { ys = []; zs = y ∷ xs; whole = refl; stops = refl; inserts = rw here })
      ]

  pub dlist_add_sorted-insert_sorted :
      (f n : ℕ) (xs : List ℕ) (t : Dlist × Heap)
      → length xs ≤ f
      → 0 < n
      → has n xs ≡ false
      → IsList xs t
      → Gives (dlist_add_sorted compare f n t) (IsList (insert_sorted n xs))
  unfolding dlist_add_sorted insert_sorted
  dlist_add_sorted-insert_sorted f n [] (l, h) fuel pos out v =
      let front : (l.tail == 0 || is_lt (compare n l.tail)) ≡ true = rw v.tail in
      rw (nonzero n pos, front) (add_front-IsList n [] (l, h) pos out v)
  dlist_add_sorted-insert_sorted f n (x ∷ xs) (l, h) fuel pos out v =
      let first = nonzero x v.nonnull.0 in
      elim (Bool-cases (is_lt (compare n x))) [
        | inl front ↦
            (let at_front : (l.tail == 0 || is_lt (compare n l.tail)) ≡ true =
                rw (v.tail, first, front) in
              rw (nonzero n pos, at_front, front) (add_front-IsList n (x ∷ xs) (l, h) pos out v))
        | inr behind ↦
            (let p = find_place-Place f n 0 x xs h (omega arith) v.nonnull.1 v.chain in
              let e = ap (λ l. x ∷ l) p.whole in
              let not_front : (l.tail == 0 || is_lt (compare n l.tail)) ≡ false =
                rw (v.tail, first, behind) in
              let cur = ap (λ a. find_place compare f n a h) v.tail ∙ p.stops in
              rw (nonzero n pos, not_front, cur, behind, p.inserts)
                (add_behind-IsList n x p.ys p.zs (l, h) pos (ap (has n) (sym e) ∙ out)
                  (subst (λ ws. IsList ws (l, h)) e v)))
      ]

  -- The new node is not less than the one in front of it.
  insert_behind-IsSorted :
      (n x : ℕ) (xs : List ℕ)
      → ((a b : ℕ) → is_gt (compare a b) ≡ is_lt (compare b a))
      → is_lt (compare n x) ≡ false
      → IsSorted (x ∷ xs)
      → IsSorted (x ∷ insert_behind n xs)
  unfolding insert_behind
  insert_behind-IsSorted n x [] turn low s = (turn x n ∙ low, tt)
  insert_behind-IsSorted n x (y ∷ ys) turn low s = elim (Bool-cases (is_gt (compare n y))) [
    | inl past ↦
        rw past (s.0, insert_behind-IsSorted n y ys turn (gt_not_lt (compare n y) past) s.1)
    | inr here ↦ rw here (turn x n ∙ low, (here, s.1))
  ]

  insert_sorted-IsSorted :
      (n : ℕ) (xs : List ℕ)
      → ((a b : ℕ) → is_gt (compare a b) ≡ is_lt (compare b a))
      → IsSorted xs
      → IsSorted (insert_sorted n xs)
  unfolding insert_sorted
  insert_sorted-IsSorted n [] turn s = tt
  insert_sorted-IsSorted n (x ∷ xs) turn s = elim (Bool-cases (is_lt (compare n x))) [
    | inl front ↦ rw front (lt_not_gt (compare n x) front, s)
    | inr behind ↦ rw behind (insert_behind-IsSorted n x xs turn behind s)
  ]

  has-insert_behind : (a n : ℕ) (xs : List ℕ) → has a (insert_behind n xs) ≡ has a (n ∷ xs)
  unfolding insert_behind
  has-insert_behind a n [] = refl
  has-insert_behind a n (y ∷ ys) = ground (arith, has-insert_behind a n ys)

  has-insert_sorted : (a n : ℕ) (xs : List ℕ) → has a (insert_sorted n xs) ≡ has a (n ∷ xs)
  unfolding insert_sorted
  has-insert_sorted a n [] = refl
  has-insert_sorted a n (x ∷ xs) = ground (arith, has-insert_behind a n xs)

  length-insert_behind : (n : ℕ) (xs : List ℕ) → length (insert_behind n xs) ≡ suc (length xs)
  unfolding insert_behind
  length-insert_behind n [] = refl
  length-insert_behind n (y ∷ ys) = ground (arith, length-insert_behind n ys)

  length-insert_sorted : (n : ℕ) (xs : List ℕ) → length (insert_sorted n xs) ≡ suc (length xs)
  unfolding insert_sorted
  length-insert_sorted n [] = refl
  length-insert_sorted n (x ∷ xs) = ground (arith, length-insert_behind n xs)

  -- Where the comparison of two nodes turns its sign when they are exchanged, `dlist_add_sorted`
  -- of a new node to a sorted list on the heap gives a sorted list on the heap of exactly the old
  -- nodes and the new one.
  pub dlist_add_sorted-IsSorted :
      (f n : ℕ) (xs : List ℕ) (t : Dlist × Heap)
      → ((a b : ℕ) → is_gt (compare a b) ≡ is_lt (compare b a))
      → length xs ≤ f
      → 0 < n
      → has n xs ≡ false
      → IsList xs t
      → IsSorted xs
      → (ys : List ℕ) × Gives (dlist_add_sorted compare f n t) (IsList ys)
        × IsSorted ys
        × ((a : ℕ) → has a ys ≡ has a (n ∷ xs))
        × (length ys ≡ suc (length xs))
  dlist_add_sorted-IsSorted f n xs t turn fuel pos out v s = (
    insert_sorted n xs,
    dlist_add_sorted-insert_sorted f n xs t fuel pos out v,
    insert_sorted-IsSorted n xs turn s,
    λ a. has-insert_sorted a n xs,
    length-insert_sorted n xs,
  )
