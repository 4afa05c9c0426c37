-- ===== src/Dlist/Ends.antt =====
-- `dlist_add` and `dlist_remove` on the heap are an append and a removal on the list of nodes.
use sp_rtrace.Prelude.{
  ℕ, ◌<◌, false, List, [], ◌∷◌, ◌++◌, ◌≡◌, refl, ap, ◌∙◌, sym, subst, ◌==◌, arith, All, append-nil,
  if◌then◌else◌,
}
use sp_rtrace.Dlist.{Heap, Dlist, set_next, set_prev, dlist_add, dlist_remove}
use sp_rtrace.Dlist.Chain.{
  first_or, last_or, has, Unlike, Chain, IsList, has-last, has_ne, Chain-append, Chain-split,
  Chain-set_next, Chain-set_prev, relink_last, relink_first, last_or-append,
}
use sp_rtrace.Dlist.Linked.{
  Gives, Unlike-insert, Unlike-remove, Unlike-split, All-insert, All-remove, last_pos, joined,
  All-split, has-tail, has-head, not_left, nonzero,
}

-- The new node behind a list that is not empty.
append_chain :
    (h : Heap) (x : ℕ) (xs : List ℕ) (n : ℕ)
    → Unlike (x ∷ xs)
    → has n (x ∷ xs) ≡ false
    → Chain h 0 (x ∷ xs) 0
    → Chain
        (set_next n 0 (set_prev n (last_or x xs) (set_next (last_or x xs) n h)))
        0
        ((x ∷ xs) ++ n ∷ [])
        0
append_chain h x xs n u out c =
    let z = last_or x xs in
    let h₁ = set_next z n h in
    let h₂ = set_prev n z h₁ in
    joined (set_next n 0 h₂) (x ∷ xs) [] n
      (Chain-set_next h₂ 0 (x ∷ xs) n n 0 out
        (Chain-set_prev h₁ 0 (x ∷ xs) n n z out (relink_last h 0 (x ∷ xs) 0 n u c)))
      (unfold set_next set_prev in ground arith) (unfold set_next in ground arith) tt

-- `dlist_add` of a new node that is not null appends it to a list on the heap, which is linked in
-- both directions with the old nodes in order in front of it.
pub dlist_add-append :
    (n : ℕ) (xs : List ℕ) (t : Dlist × Heap)
    → 0 < n
    → has n xs ≡ false
    → IsList xs t
    → Gives (dlist_add n t) (IsList (xs ++ n ∷ []))
unfolding dlist_add
dlist_add-append n [] (l, h) pos out v =
    rw (nonzero n pos, v.head)
      (record {
        nonnull = (pos, tt);
        unlike = (refl, tt);
        tail = refl;
        head = refl;
        chain = (unfold set_next set_prev in ground arith, unfold set_next in ground arith, tt);
      })
dlist_add-append n (x ∷ xs) (l, h) pos out v =
    let last = nonzero (last_or x xs) (last_pos x xs v.nonnull) in
    rw (nonzero n pos, v.head, last)
      (record {
        nonnull =
            All-insert n (x ∷ xs) [] pos
              (subst (All (λ y. 0 < y)) (sym (append-nil (x ∷ xs))) v.nonnull);
        unlike =
            Unlike-insert n (x ∷ xs) [] (subst Unlike (sym (append-nil (x ∷ xs))) v.unlike)
              (ap (has n) (append-nil (x ∷ xs)) ∙ out);
        tail = v.tail;
        head = sym (last_or-append (x ∷ xs) (n ∷ []) 0);
        chain = append_chain h x xs n v.unlike out v.chain;
      })

-- The heap after the node in front, if there is one, was linked to the node behind.
abbrev cut : ℕ → Heap → Heap
cut n h = if h.prev n == 0 then h else set_next (h.prev n) (h.next n) h

record IsCut (g : Heap) (n : ℕ) (ys zs : List ℕ) : Type 0 where
  prev : g.prev n ≡ last_or 0 ys
  next : g.next n ≡ first_or zs 0
  front : Chain g 0 ys (first_or zs 0)
  back : Chain g n zs 0

module _ (h : Heap) (n : ℕ) where
  cut-IsCut :
      (ys zs : List ℕ)
      → All (λ x. 0 < x) (ys ++ n ∷ zs)
      → Unlike (ys ++ n ∷ zs)
      → Chain h 0 (ys ++ n ∷ zs) 0
      → IsCut (cut n h) n ys zs
  unfolding set_next
  cut-IsCut [] zs pos u c = rw (c.0) (record { prev = c.0; next = c.1; front = tt; back = c.2 })
  cut-IsCut (y ∷ r) zs pos u c =
      let ys = y ∷ r in
      let (front, back) = Chain-split h 0 ys (n ∷ zs) 0 c in
      let (left, right, apart) = Unlike-split ys (n ∷ zs) u in
      let (whole, absent, behind) = Unlike-remove n ys zs u in
      let z = last_or y r in
      let last = nonzero z (last_pos y r (All-split (λ x. 0 < x) ys (n ∷ zs) pos).0) in
      let away = apart z (has-last y r) in
      rw (back.0, last)
        (record {
          prev = back.0;
          next = rw (has_ne z n ys (has-last y r) absent) back.1;
          front =
              subst (λ v. Chain (set_next z v h) 0 ys (first_or zs 0)) (sym back.1)
                (relink_last h 0 ys n (first_or zs 0) left front);
          back = Chain-set_next h n zs 0 z (h.next n) (has-tail z n zs away) back.2;
        })

-- What is left when the node behind, if there is one, was linked to the node in front.
joined_back :
    (g : Heap) (n : ℕ) (ys zs : List ℕ)
    → Unlike (ys ++ zs)
    → All (λ x. 0 < x) (ys ++ zs)
    → IsCut g n ys zs
    → Chain (if g.next n == 0 then g else set_prev (g.next n) (g.prev n) g) 0 (ys ++ zs) 0
joined_back g n ys [] u pos c = rw c.next (Chain-append g 0 ys [] 0 c.front tt)
joined_back g n ys (z ∷ r) u pos c =
    let (left, right, apart) = Unlike-split ys (z ∷ r) u in
    let first : (z == 0) ≡ false = nonzero z ((All-split (λ x. 0 < x) ys (z ∷ r) pos).1.0) in
    let absent : has z ys ≡ false = not_left z ys (z ∷ r) (apart z) (has-head z r) in
    rw (c.next, c.prev, first)
      (Chain-append (set_prev z (last_or 0 ys) g) 0 ys (z ∷ r) 0
        (Chain-set_prev g 0 ys z z (last_or 0 ys) absent c.front)
        (relink_first g n (z ∷ r) 0 (last_or 0 ys) right c.back))

tail_left :
    (h : Heap) (n tail : ℕ) (ys zs : List ℕ)
    → All (λ x. 0 < x) (ys ++ n ∷ zs)
    → Chain h 0 (ys ++ n ∷ zs) 0
    → tail ≡ first_or (ys ++ n ∷ zs) 0
    → (if h.prev n == 0 then h.next n else tail) ≡ first_or (ys ++ zs) 0
tail_left h n tail [] zs pos c e = rw c.0 c.1
tail_left h n tail (y ∷ r) zs pos c e =
    let back = (Chain-split h 0 (y ∷ r) (n ∷ zs) 0 c).1 in
    let z = nonzero (last_or y r) (last_pos y r (All-split (λ x. 0 < x) (y ∷ r) (n ∷ zs) pos).0) in
    rw (back.0, z) e

head_left :
    (g : Heap) (n head : ℕ) (ys zs : List ℕ)
    → All (λ x. 0 < x) (ys ++ zs)
    → IsCut g n ys zs
    → head ≡ last_or 0 (ys ++ n ∷ zs)
    → (if g.next n == 0 then g.prev n else head) ≡ last_or 0 (ys ++ zs)
head_left g n head ys [] pos c e = rw c.next (c.prev ∙ ap (last_or 0) (sym (append-nil ys)))
head_left g n head ys (z ∷ r) pos c e =
    let first : (z == 0) ≡ false = nonzero z ((All-split (λ x. 0 < x) ys (z ∷ r) pos).1.0) in
    rw (c.next, first) (e ∙ last_or-append ys (n ∷ z ∷ r) 0 ∙ sym (last_or-append ys (z ∷ r) 0))

-- `dlist_remove` takes a node out of a list on the heap, wherever it stands, and leaves the other
-- nodes linked in both directions and in order.
pub dlist_remove-removes :
    (n : ℕ) (ys zs : List ℕ) (t : Dlist × Heap)
    → IsList (ys ++ n ∷ zs) t
    → Gives (dlist_remove n t) (IsList (ys ++ zs))
unfolding dlist_remove
dlist_remove-removes n ys zs (l, h) v =
    let (pos, nonnull) = All-remove n ys zs v.nonnull in
    let (unlike, _, _) = Unlike-remove n ys zs v.unlike in
    let c = cut-IsCut h n ys zs v.nonnull v.unlike v.chain in
    rw (nonzero n pos) (record {
      nonnull = nonnull;
      unlike = unlike;
      tail = tail_left h n l.tail ys zs v.nonnull v.chain v.tail;
      head = head_left (cut n h) n l.head ys zs nonnull c v.head;
      chain = joined_back (cut n h) n ys zs unlike nonnull c;
    })
