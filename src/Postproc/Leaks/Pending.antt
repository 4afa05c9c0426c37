-- ===== src/Postproc/Leaks/Pending.antt =====
-- Which allocations are freed by the calls that follow, apart from any table.
use sp_rtrace.Prelude.{
  ℕ, ◌+◌, ◌<◌, Bool, true, false, List, [], ◌∷◌, ◌++◌, ◌≡◌, refl, sym, ap, ap₂, ◌∙◌, Option, none,
  some, All, ◌==◌, ◌&&◌, ◌||◌, if◌then◌else◌, Bool-cases, inl, inr, arith,
}
use sp_rtrace.Binary.Data.{Fcall}
use sp_rtrace.Postproc.Leaks.{Node, Fres, Split, type_alloc, type_free}
use sp_rtrace.Postproc.Leaks.Keys.{same_key, and_false}
use sp_rtrace.Postproc.Leaks.Table.{NoKey, Found, others}

-- Whether the next allocation or deallocation of the call's resource is a deallocation.
unfoldable pub freed_later : Fcall → List Fcall → Bool
freed_later c [] = false
freed_later c (d ∷ cs) =
    let rest = freed_later c cs in
    if same_key c d
    then if d.type == type_alloc then false else if d.type == type_free then true else rest
    else rest

-- What is left, with places from `n` on: the allocations that are not freed, and calls of other
-- types.
unfoldable pub leaks : ℕ → List Fcall → List Node
leaks n [] = []
leaks n (c ∷ cs) =
    let rest = leaks (n + 1) cs in
    if c.type == type_alloc
    then if freed_later c cs then rest else (n, c) ∷ rest
    else if c.type == type_free
    then rest
    else (n, c) ∷ rest

-- Whether the node has a record whose resource is freed by `cs`.
unfoldable pub pending : List Fres → List Fcall → ℕ → Bool
pending [] cs n = false
pending (t ∷ ts) cs n = n == t.node && freed_later t.call cs || pending ts cs n

or_assoc : (a b c : Bool) → ((a || b) || c) ≡ (a || (b || c))
or_assoc true b c = refl
or_assoc false b c = refl

or_swap : (a b c : Bool) → (a || (b || c)) ≡ (b || (a || c))
or_swap true true c = refl
or_swap true false c = refl
or_swap false true c = refl
or_swap false false c = refl

pub pending-append :
    (ts us : List Fres) (cs : List Fcall) (n : ℕ)
    → pending (ts ++ us) cs n ≡ (pending ts cs n || pending us cs n)
unfolding pending
pending-append [] us cs n = refl
pending-append (t ∷ ts) us cs n =
    ap (λ b. n == t.node && freed_later t.call cs || b) (pending-append ts us cs n)
    ∙ sym (or_assoc (n == t.node && freed_later t.call cs) (pending ts cs n) (pending us cs n))

pub pending-nil : (ts : List Fres) (n : ℕ) → pending ts [] n ≡ false
unfolding pending freed_later
pending-nil [] n = refl
pending-nil (t ∷ ts) n = rw (and_false (n == t.node)) (pending-nil ts n)

-- A call about other resources changes nothing.
pub pending-NoKey :
    (c : Fcall) (ts : List Fres) (cs : List Fcall) (n : ℕ)
    → NoKey c ts
    → pending ts (c ∷ cs) n ≡ pending ts cs n
unfolding pending freed_later
pending-NoKey c [] cs n h = refl
pending-NoKey c (t ∷ ts) cs n h =
    rw h.0 (ap (λ b. n == t.node && freed_later t.call cs || b) (pending-NoKey c ts cs n h.1))

freed_later_other :
    (c d : Fcall) (cs : List Fcall)
    → (d.type == type_alloc) ≡ false
    → (d.type == type_free) ≡ false
    → freed_later c (d ∷ cs) ≡ freed_later c cs
unfolding freed_later
freed_later_other c d cs a f = elim (Bool-cases (same_key c d)) [
  | inl hit ↦ rw (hit, a, f)
  | inr miss ↦ rw miss
]

pub pending_other :
    (c : Fcall) (ts : List Fres) (cs : List Fcall) (n : ℕ)
    → (c.type == type_alloc) ≡ false
    → (c.type == type_free) ≡ false
    → pending ts (c ∷ cs) n ≡ pending ts cs n
unfolding pending
pending_other c [] cs n a f = refl
pending_other c (t ∷ ts) cs n a f =
    ap₂ (λ l b. n == t.node && l || b) (freed_later_other t.call c cs a f)
      (pending_other c ts cs n a f)

pending_found :
    (c : Fcall) (b : List Fres) (r : Fres) (a : List Fres) (cs : List Fcall) (n : ℕ)
    → NoKey c (b ++ a)
    → pending (b ++ r ∷ a) (c ∷ cs) n
      ≡ (n == r.node && freed_later r.call (c ∷ cs) || pending (b ++ a) cs n)
unfolding pending
pending_found c b r a cs n h =
    let one = n == r.node && freed_later r.call (c ∷ cs) in
    pending-append b (r ∷ a) (c ∷ cs) n
    ∙ or_swap (pending b (c ∷ cs) n) one (pending a (c ∷ cs) n)
    ∙ ap (λ x. one || x) (sym (pending-append b a (c ∷ cs) n) ∙ pending-NoKey c (b ++ a) cs n h)

-- An allocation takes the place of one before it, which stays.
pub pending_alloc :
    (c : Fcall) (ts : List Fres) (o : Option Split) (cs : List Fcall) (n : ℕ)
    → Found c ts o
    → (c.type == type_alloc) ≡ true
    → pending ts (c ∷ cs) n ≡ pending (others o ts) cs n
unfolding freed_later
pending_alloc c ts none cs n f a = pending-NoKey c ts cs n f
pending_alloc c ts (some (before, r, after)) cs n f a =
    ap (λ l. pending l (c ∷ cs) n) f.0
    ∙ pending_found c before r after cs n f.2
    ∙ rw (f.1, a, and_false (n == r.node))

-- The node of the record that was found.
abbrev pub is_found : Option Split → ℕ → Bool
is_found none n = false
is_found (some (before, r, after)) n = n == r.node

and_true : (b : Bool) → (b && true) ≡ b
and_true true = refl
and_true false = refl

pub pending_free :
    (c : Fcall) (ts : List Fres) (o : Option Split) (cs : List Fcall) (n : ℕ)
    → Found c ts o
    → (c.type == type_free) ≡ true
    → pending ts (c ∷ cs) n ≡ (is_found o n || pending (others o ts) cs n)
unfolding freed_later
pending_free c ts none cs n f e = pending-NoKey c ts cs n f
pending_free c ts (some (before, r, after)) cs n f e =
    let a : (c.type == type_alloc) ≡ false = ground (arith, e) in
    ap (λ l. pending l (c ∷ cs) n) f.0
    ∙ pending_found c before r after cs n f.2
    ∙ rw (f.1, a, e, and_true (n == r.node))

pub pending_below :
    (ts : List Fres) (cs : List Fcall) (n : ℕ) → All (λ t. t.node < n) ts → pending ts cs n ≡ false
unfolding pending
pending_below [] cs n h = refl
pending_below (t ∷ ts) cs n h =
    let l = h.0 in
    let e : (n == t.node) ≡ false = ground (arith, l) in rw e (pending_below ts cs n h.1)
