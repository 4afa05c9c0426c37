-- ===== src/Dlist.antt =====
-- The doubly linked list of src/common/dlist.c on a heap of nodes. `head` is the node that was
-- added last, `tail` the first one; 0 is the null pointer.
pub mod Chain
pub mod Linked
pub mod Ends
pub mod Insert
pub mod Sorted
pub mod Visit
use Prim.Native.Nat.{Ordering}
use sp_rtrace.Prelude.{
  ℕ, zero, suc, Bool, true, false, Option, none, some, ◌==◌, not, ◌&&◌, ◌||◌, if◌then◌else◌,
}

-- `next` and `prev` of the node at each address.
pub record Heap : Type 0 where
  pub next : ℕ → ℕ
  pub prev : ℕ → ℕ

pub record Dlist : Type 0 where
  pub head : ℕ
  pub tail : ℕ

unfoldable pub set_next : ℕ → ℕ → Heap → Heap
set_next a v h = record h { next = λ i. if i == a then v else h.next i }

unfoldable pub set_prev : ℕ → ℕ → Heap → Heap
set_prev a v h = record h { prev = λ i. if i == a then v else h.prev i }

-- `dlist_init`; `dlist_free` ends with it.
unfoldable pub dlist_init : Dlist
dlist_init = record { head = 0; tail = 0 }

-- `none` is an assertion that fails, here and in what follows.
unfoldable pub dlist_add : ℕ → Dlist × Heap → Option (Dlist × Heap)
dlist_add node (l, h) =
    let linked = if l.head == 0 then h else set_next l.head node h in
    let tail = if l.head == 0 then node else l.tail in
    let h' = set_next node 0 (set_prev node l.head linked) in
    if node == 0 then none else some (record { head = node; tail = tail }, h')

unfoldable pub dlist_remove : ℕ → Dlist × Heap → Option (Dlist × Heap)
dlist_remove node (l, h) =
    let first = h.prev node == 0 in
    let tail = if first then h.next node else l.tail in
    let g = if first then h else set_next (h.prev node) (h.next node) h in
    let last = g.next node == 0 in
    let head = if last then g.prev node else l.head in
    let g' = if last then g else set_prev (g.next node) (g.prev node) g in
    if node == 0 then none else some (record { head = head; tail = tail }, g')

-- `compare` by the sign of its result.
abbrev pub is_gt : Ordering → Bool
is_gt Ordering.gt = true
is_gt o = false

abbrev pub is_lt : Ordering → Bool
is_lt Ordering.lt = true
is_lt o = false

abbrev pub is_eq : Ordering → Bool
is_eq Ordering.eq = true
is_eq o = false

-- The two branches of `dlist_add_sorted`: in front of the list, and behind the node `cur`.
unfoldable pub add_front : ℕ → Dlist × Heap → Dlist × Heap
add_front node (l, h) =
    let h' = set_prev node 0 (set_next node l.tail h) in
    let head = if l.head == 0 then node else l.head in
    (record { head = head; tail = node }, if l.head == 0 then h' else set_prev l.tail node h')

unfoldable pub add_behind : ℕ → ℕ → Dlist × Heap → Dlist × Heap
add_behind node cur (l, h) =
    let head = if h.next cur == 0 then node else l.head in
    let g = if h.next cur == 0 then h else set_prev (h.next cur) node h in
    (record l { head = head }, set_prev node cur (set_next cur node (set_next node (g.next cur) g)))

module _ (compare : ℕ → ℕ → Ordering) where
  -- The node behind which the new one belongs: the loop of `dlist_add_sorted`.
  unfoldable pub find_place : ℕ → ℕ → ℕ → Heap → ℕ
  find_place zero node cur h = cur
  find_place (suc f) node cur h =
      let rest = find_place f node (h.next cur) h in
      if not (h.next cur == 0) && is_gt (compare node (h.next cur)) then rest else cur

  -- `fuel` is at least the number of nodes.
  unfoldable pub dlist_add_sorted : ℕ → ℕ → Dlist × Heap → Option (Dlist × Heap)
  dlist_add_sorted fuel node (l, h) =
      let front = l.tail == 0 || is_lt (compare node l.tail) in
      let cur = find_place fuel node l.tail h in
      if node == 0
      then none
      else some (if front then add_front node (l, h) else add_behind node cur (l, h))

  -- `dlist_find`, from a node on; 0 where there is none.
  unfoldable pub find_from : ℕ → ℕ → ℕ → Heap → ℕ
  find_from zero node item h = 0
  find_from (suc f) node item h =
      let rest = find_from f (h.next node) item h in
      if node == 0 then 0 else if is_eq (compare node item) then node else rest

  unfoldable pub dlist_find : ℕ → ℕ → Dlist × Heap → ℕ
  dlist_find fuel item (l, h) = find_from fuel l.tail item h

abbrev pub and_then {ℓ κ} : {A : Type ℓ} {B : Type κ} → Option A → (A → Option B) → Option B
and_then none f = none
and_then (some a) f = f a

-- `dlist_foreach2`: the next node is read before the call, which may remove its own. `S` is what
-- the calls work on.
unfoldable pub foreach_from {ℓ} :
    {S : Type ℓ}
    → ℕ
    → (ℕ → S × Dlist × Heap → Option (S × Dlist × Heap))
    → ℕ
    → S × Dlist × Heap
    → Option (S × Dlist × Heap)
foreach_from zero do_what node t = none
foreach_from (suc f) do_what node (s, l, h) =
    let rest = and_then (do_what node (s, l, h)) (foreach_from f do_what (h.next node)) in
    if node == 0 then some (s, l, h) else rest

unfoldable pub dlist_foreach2 {ℓ} :
    {S : Type ℓ}
    → ℕ
    → (ℕ → S × Dlist × Heap → Option (S × Dlist × Heap))
    → S × Dlist × Heap
    → Option (S × Dlist × Heap)
dlist_foreach2 fuel do_what (s, l, h) = foreach_from fuel do_what l.tail (s, l, h)
