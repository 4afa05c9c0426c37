-- ===== src/Tests/Lists.antt =====
-- Three linked nodes, and what the list operations make of them.
use Prim.Native.Nat.{compare}
use sp_rtrace.Prelude.{
  ℕ, suc, ◌+◌, Bool, List, [], ◌∷◌, ◌++◌, ◌≡◌, refl, ◌==◌, if◌then◌else◌, arith, length,
}
use sp_rtrace.Dlist.{
  Heap, Dlist, is_gt, is_lt, dlist_add, dlist_remove, dlist_add_sorted, dlist_foreach2,
}
use sp_rtrace.Dlist.Chain.{has, IsList}
use sp_rtrace.Dlist.Linked.{Gives}
use sp_rtrace.Dlist.Ends.{dlist_add-append, dlist_remove-removes}
use sp_rtrace.Dlist.Sorted.{IsSorted, dlist_add_sorted-IsSorted}
use sp_rtrace.Dlist.Visit.{visitor, visited, remaining, Visited, dlist_foreach2-remaining}

abbrev heap : Heap
heap = record {
  next = λ i. if i == 10 then 20 else if i == 20 then 30 else 0;
  prev = λ i. if i == 30 then 20 else if i == 20 then 10 else 0;
}

abbrev list : Dlist
list = record { head = 30; tail = 10 }

abbrev nodes : List ℕ
nodes = 10 ∷ 20 ∷ 30 ∷ []

list-IsList : IsList nodes (list, heap)
list-IsList = record {
  nonnull = (omega arith, (omega arith, (omega arith, tt)));
  unlike = (refl, (refl, (refl, tt)));
  tail = refl;
  head = refl;
  chain = (refl, refl, (refl, refl, (refl, refl, tt)));
}

dlist_add-append_example : Gives (dlist_add 40 (list, heap)) (IsList (nodes ++ 40 ∷ []))
dlist_add-append_example = dlist_add-append 40 nodes (list, heap) (omega arith) refl list-IsList

dlist_remove-removes_example : Gives (dlist_remove 20 (list, heap)) (IsList ((10 ∷ []) ++ 30 ∷ []))
dlist_remove-removes_example = dlist_remove-removes 20 (10 ∷ []) (30 ∷ []) (list, heap) list-IsList

turned : (a b : ℕ) → is_gt (compare a b) ≡ is_lt (compare b a)
turned a b = ground arith

dlist_add_sorted-IsSorted_example :
    (ys : List ℕ) × Gives (dlist_add_sorted compare 3 15 (list, heap)) (IsList ys)
    × IsSorted compare ys
    × ((a : ℕ) → has a ys ≡ has a (15 ∷ nodes))
    × (length ys ≡ suc (length nodes))
dlist_add_sorted-IsSorted_example =
    dlist_add_sorted-IsSorted compare 3 15 nodes (list, heap) turned (omega arith) (omega arith)
      refl list-IsList (refl, (refl, tt))

-- The nodes are summed up, and the second one is removed.
abbrev sum_up : ℕ → ℕ → ℕ × Bool
sum_up node sum = (sum + node, node == 20)

dlist_foreach2-remaining_example :
    Gives
      (dlist_foreach2 4 (visitor sum_up) (0, list, heap))
      (Visited sum_up (visited sum_up nodes 0) (remaining sum_up nodes 0))
dlist_foreach2-remaining_example =
    dlist_foreach2-remaining sum_up 4 nodes 0 (list, heap) (omega arith) list-IsList

all_seen : visited sum_up nodes 0 ≡ 60
unfolding visited
all_seen = refl

two_left : remaining sum_up nodes 0 ≡ 10 ∷ 30 ∷ []
unfolding remaining
two_left = refl
