-- ===== src/Dlist/Insert.antt =====
-- `dlist_add_sorted` on the heap: which place it finds, and the links that it makes.
use sp_rtrace.Prelude.{ℕ, ◌<◌, false, List, [], ◌∷◌, ◌++◌, ◌≡◌, refl, ◌∙◌, sym, subst, ◌==◌, arith}
use sp_rtrace.Dlist.{Heap, Dlist, set_next, set_prev, add_front, add_behind}
use sp_rtrace.Dlist.Chain.{
  first_or, last_or, has, Unlike, Chain, IsList, has-last, has_ne, Chain-split, Chain-set_next,
  Chain-set_prev, relink_last, relink_first, last_or-append,
}
use sp_rtrace.Dlist.Linked.{
  Unlike-insert, Unlike-split, All-insert, last_pos, joined, All-split, has-head, not_left, nonzero,
  has-split,
}

pub add_front-IsList :
    (n : ℕ) (xs : List ℕ) (t : Dlist × Heap)
    → 0 < n
    → has n xs ≡ false
    → IsList xs t
    → IsList (n ∷ xs) (add_front n t)
unfolding add_front
add_front-IsList n [] (l, h) pos out v =
    rw (v.head, v.tail)
      (record {
        nonnull = (pos, tt);
        unlike = (refl, tt);
        tail = refl;
        head = refl;
        chain = (unfold set_prev in ground arith, unfold set_next set_prev in ground arith, tt);
      })
add_front-IsList n (x ∷ xs) (l, h) pos out v =
    let last = nonzero (last_or x xs) (last_pos x xs v.nonnull) in
    let other : (n == x) ≡ false = ground (arith, out) in
    let h₁ = set_next n x h in
    let h₂ = set_prev n 0 h₁ in
    rw (v.head, v.tail, last)
      (record {
        nonnull = (pos, v.nonnull);
        unlike = (out, v.unlike);
        tail = refl;
        head = refl;
        chain = (
          unfold set_prev in ground (arith, other),
          unfold set_next set_prev in ground arith,
          relink_first h₂ 0 (x ∷ xs) 0 n v.unlike (
              Chain-set_prev h₁ 0 (x ∷ xs) 0 n 0 out
                (Chain-set_next h 0 (x ∷ xs) 0 n x out v.chain)),
        );
      })

next_last :
    (h : Heap) (before x : ℕ) (xs : List ℕ) (after : ℕ)
    → Chain h before (x ∷ xs) after
    → h.next (last_or x xs) ≡ after
next_last h before x [] after c = c.1
next_last h before x (y ∷ xs) after c = next_last h x y xs after c.2

-- The links behind the last node of `xs`, with the node that follows already linked back.
link_behind :
    (g : Heap) (x : ℕ) (xs ys : List ℕ) (n : ℕ)
    → Unlike ((x ∷ xs) ++ ys)
    → has n ((x ∷ xs) ++ ys) ≡ false
    → Chain g 0 (x ∷ xs) (first_or ys 0)
    → Chain g n ys 0
    → Chain
        (set_prev n (last_or x xs) (set_next (last_or x xs) n (set_next n (first_or ys 0) g)))
        0
        ((x ∷ xs) ++ n ∷ ys)
        0
link_behind g x xs ys n u out front back =
    let z = last_or x xs in
    let (left, right, apart) = Unlike-split (x ∷ xs) ys u in
    let (in_front, behind) = has-split n (x ∷ xs) ys out in
    let away = apart z (has-last x xs) in
    let other = has_ne z n (x ∷ xs) (has-last x xs) in_front in
    let f = first_or ys 0 in
    let g₁ = set_next n f g in
    let g₂ = set_next z n g₁ in
    joined (set_prev n z g₂) (x ∷ xs) ys n
      (Chain-set_prev g₂ 0 (x ∷ xs) n n z in_front
        (relink_last g₁ 0 (x ∷ xs) f n left (Chain-set_next g 0 (x ∷ xs) f n f in_front front)))
      (unfold set_prev in ground arith) (unfold set_next set_prev in rw other (ground arith))
      (Chain-set_prev g₂ n ys 0 n z behind
        (Chain-set_next g₁ n ys 0 z n away (Chain-set_next g n ys 0 n f behind back)))

pub add_behind-IsList :
    (n x : ℕ) (xs ys : List ℕ) (t : Dlist × Heap)
    → 0 < n
    → has n ((x ∷ xs) ++ ys) ≡ false
    → IsList ((x ∷ xs) ++ ys) t
    → IsList ((x ∷ xs) ++ n ∷ ys) (add_behind n (last_or x xs) t)
unfolding add_behind
add_behind-IsList n x xs [] (l, h) pos out v =
    let (front, back) = Chain-split h 0 (x ∷ xs) [] 0 v.chain in
    let e = next_last h 0 x xs 0 front in
    rw e (record {
      nonnull = All-insert n (x ∷ xs) [] pos v.nonnull;
      unlike = Unlike-insert n (x ∷ xs) [] v.unlike out;
      tail = v.tail;
      head = sym (last_or-append (x ∷ xs) (n ∷ []) 0);
      chain =
          subst
            (λ v.
              Chain (set_prev n (last_or x xs) (set_next (last_or x xs) n (set_next n v h))) 0
                ((x ∷ xs) ++ n ∷ []) 0)
            (sym e) (link_behind h x xs [] n v.unlike out front tt);
    })
add_behind-IsList n x xs (y ∷ r) (l, h) pos out v =
    let (front, back) = Chain-split h 0 (x ∷ xs) (y ∷ r) 0 v.chain in
    let (left, right, apart) = Unlike-split (x ∷ xs) (y ∷ r) v.unlike in
    let absent = not_left y (x ∷ xs) (y ∷ r) (apart y) (has-head y r) in
    let e = next_last h 0 x xs y front in
    let first = nonzero y ((All-split (λ x. 0 < x) (x ∷ xs) (y ∷ r) v.nonnull).1.0) in
    rw (e, first)
      (record {
        nonnull = All-insert n (x ∷ xs) (y ∷ r) pos v.nonnull;
        unlike = Unlike-insert n (x ∷ xs) (y ∷ r) v.unlike out;
        tail = v.tail;
        head =
            v.head
            ∙ last_or-append (x ∷ xs) (y ∷ r) 0
            ∙ sym (last_or-append (x ∷ xs) (n ∷ y ∷ r) 0);
        chain =
            unfold set_prev in
            subst
              (λ v.
                Chain
                  (set_prev n (last_or x xs)
                    (set_next (last_or x xs) n (set_next n v (set_prev y n h))))
                  0 ((x ∷ xs) ++ n ∷ y ∷ r) 0)
              (sym e)
              (link_behind (set_prev y n h) x xs (y ∷ r) n v.unlike out
                (Chain-set_prev h 0 (x ∷ xs) y y n absent front)
                (relink_first h (last_or x xs) (y ∷ r) 0 n right back));
      })
