-- ===== src/Dlist/Visit.antt =====
-- `dlist_find` and `dlist_foreach2` on the heap: the nodes are seen in order, also where the
-- visitor removes the one that it is given.
use Prim.Native.Nat.{Ordering}
use sp_rtrace.Prelude.{
  ℕ, zero, suc, ◌<◌, ◌≤◌, Bool, List, [], ◌∷◌, ◌++◌, ◌≡◌, refl, ap, ◌∙◌, sym, subst, Option, none,
  some, arith, All, if◌then◌else◌, length, Bool-cases, inl, inr, append_assoc,
}
use sp_rtrace.Dlist.{
  Heap, Dlist, is_eq, find_from, dlist_find, foreach_from, dlist_foreach2, dlist_remove, and_then,
}
use sp_rtrace.Dlist.Chain.{first_or, Chain, IsList, Chain-split}
use sp_rtrace.Dlist.Linked.{Gives, nonzero, All-split}
use sp_rtrace.Dlist.Ends.{dlist_remove-removes}

module _ (compare : ℕ → ℕ → Ordering) where
  -- The first node that compares as equal to the item, or 0.
  unfoldable pub first_equal : ℕ → List ℕ → ℕ
  first_equal item [] = 0
  first_equal item (x ∷ xs) =
      let rest = first_equal item xs in if is_eq (compare x item) then x else rest

  find_from-first_equal :
      (f item before : ℕ) (xs : List ℕ) (h : Heap)
      → length xs ≤ f
      → All (λ x. 0 < x) xs
      → Chain h before xs 0
      → find_from compare f (first_or xs 0) item h ≡ first_equal item xs
  unfolding find_from first_equal
  find_from-first_equal zero item before [] h fuel pos c = refl
  find_from-first_equal zero item before (x ∷ xs) h fuel pos c = absurd (omega arith)
  find_from-first_equal (suc f) item before [] h fuel pos c = refl
  find_from-first_equal (suc f) item before (x ∷ xs) h fuel pos c =
      rw (nonzero x pos.0, c.1)
        (ap (λ r. if is_eq (compare x item) then x else r)
          (find_from-first_equal f item x xs h (omega arith) pos.1 c.2))

  pub dlist_find-first_equal :
      (f item : ℕ) (xs : List ℕ) (t : Dlist × Heap)
      → length xs ≤ f
      → IsList xs t
      → dlist_find compare f item t ≡ first_equal item xs
  unfolding dlist_find
  dlist_find-first_equal f item xs (l, h) fuel v =
      ap (λ a. find_from compare f a item h) v.tail
      ∙ find_from-first_equal f item 0 xs h fuel v.nonnull v.chain

Gives-and_then :
    {A B : Type 0} (o : Option A) (f : A → Option B) (P : A → Type 0) (Q : B → Type 0)
    → Gives o P
    → ((a : A) → P a → Gives (f a) Q)
    → Gives (and_then o f) Q
Gives-and_then none f P Q g k = absurd g
Gives-and_then (some a) f P Q g k = k a g

module _ {S : Type 0} (step : ℕ → S → S × Bool) where
  -- A visitor that works on a state of its own, and then may remove the node from the list.
  unfoldable pub visitor : ℕ → S × Dlist × Heap → Option (S × Dlist × Heap)
  visitor node (s, l, h) =
      let (s', drops) = step node s in
      if drops
      then and_then (dlist_remove node (l, h)) (λ t. some (s', t.0, t.1))
      else some (s', l, h)

  -- The same on a list: the state at the end, and the nodes that are left.
  unfoldable pub visited : List ℕ → S → S
  visited [] s = s
  visited (x ∷ xs) s = visited xs (step x s).0

  unfoldable pub remaining : List ℕ → S → List ℕ
  remaining [] s = []
  remaining (x ∷ xs) s =
      let rest = remaining xs (step x s).0 in if (step x s).1 then rest else x ∷ rest

  abbrev pub Visited : S → List ℕ → S × Dlist × Heap → Type 0
  Visited s xs (s', l, h) = (s' ≡ s) × IsList xs (l, h)

  foreach_from-remaining :
      (f : ℕ) (ys xs : List ℕ) (s : S) (l : Dlist) (h : Heap)
      → length xs < f
      → IsList (ys ++ xs) (l, h)
      → Gives
          (foreach_from f visitor (first_or xs 0) (s, l, h))
          (Visited (visited xs s) (ys ++ remaining xs s))
  unfolding foreach_from visitor visited remaining
  foreach_from-remaining zero ys xs s l h fuel v = absurd (omega arith)
  foreach_from-remaining (suc f) ys [] s l h fuel v = (refl, v)
  foreach_from-remaining (suc f) ys (x ∷ xs) s l h fuel v =
      let (_, back) = Chain-split h 0 ys (x ∷ xs) 0 v.chain in
      let first = nonzero x ((All-split (λ y. 0 < y) ys (x ∷ xs) v.nonnull).1.0) in
      let t = (step x s).0 in
      elim (Bool-cases (step x s).1) [
        | inl drops ↦
            rw (first, drops, back.1)
              (Gives-and_then (and_then (dlist_remove x (l, h)) (λ u. some (t, u.0, u.1)))
                (foreach_from f visitor (first_or xs 0)) (Visited t (ys ++ xs))
                (Visited (visited xs t) (ys ++ remaining xs t))
                (Gives-and_then (dlist_remove x (l, h)) (λ u. some (t, u.0, u.1))
                  (IsList (ys ++ xs)) (Visited t (ys ++ xs)) (dlist_remove-removes x ys xs (l, h) v)
                  (λ u w. (refl, w)))
                (λ u w.
                  subst
                    (λ r.
                      Gives (foreach_from f visitor (first_or xs 0) u)
                        (Visited (visited xs r) (ys ++ remaining xs r)))
                    w.0 (foreach_from-remaining f ys xs u.0 u.1 u.2 (omega arith) w.1)))
        | inr stays ↦
            rw (first, stays, back.1)
              (subst
                (λ ws.
                  Gives (foreach_from f visitor (first_or xs 0) (t, l, h))
                    (Visited (visited xs t) ws))
                (append_assoc ys (x ∷ []) (remaining xs t))
                (foreach_from-remaining f (ys ++ x ∷ []) xs t l h (omega arith)
                  (subst (λ ws. IsList ws (l, h)) (sym (append_assoc ys (x ∷ []) xs)) v)))
      ]

  -- For a visitor that works on a state of its own and may remove the node that it is given,
  -- `dlist_foreach2` on the heap, with more fuel than nodes, fails no assertion, visits every node
  -- once and in order, and leaves a list of exactly the nodes that were not removed.
  pub dlist_foreach2-remaining :
      (f : ℕ) (xs : List ℕ) (s : S) (t : Dlist × Heap)
      → length xs < f
      → IsList xs t
      → Gives (dlist_foreach2 f visitor (s, t.0, t.1)) (Visited (visited xs s) (remaining xs s))
  unfolding dlist_foreach2
  dlist_foreach2-remaining f xs s (l, h) fuel v =
      subst
        (λ a. Gives (foreach_from f visitor a (s, l, h)) (Visited (visited xs s) (remaining xs s)))
        (sym v.tail) (foreach_from-remaining f [] xs s l h fuel v)
