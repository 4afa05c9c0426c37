-- ===== src/Postproc/Select/Filters.antt =====
-- What each filter leaves of the calls.
use sp_rtrace.Prelude.{
  ℕ, zero, suc, ◌+◌, ◌-◌, ◌≤◌, ◌<◌, bit_and, subst, fun_ext, ◌↔◌, Bool, true, false, List, [], ◌∷◌,
  ◌≡◌, refl, sym, ap, ◌∙◌, Option, none, some, All, ◌==◌, ◌&&◌, ◌||◌, not, Bool-cases, inl, inr,
  arith, length, get_elem?,
}
use sp_rtrace.Prelude.Bits.{bit, word_power, bit_and-test}
use sp_rtrace.Binary.Data.{Fcall, Resource}
use sp_rtrace.Postproc.Leaks.{Node, at}
use sp_rtrace.Postproc.Select.{
  drops_type, drops_resource, selects, resources_left, with_records, filter_resource, drops_index,
  filter_include, filter_exclude,
}
use sp_rtrace.Postproc.Select.Kept.{remaining, filter_calls-remaining}

each_some :
    (drop : Fcall → Bool) (cs : List Fcall)
    → All (λ c. Path (Option Bool) (some (drop c)) (some (drop c))) cs
each_some drop [] = tt
each_some drop (c ∷ cs) = (refl, each_some drop cs)

-- A call that is left passed the test.
remaining-All :
    {P : Fcall → Type 0} (drop : Fcall → Bool) (n : ℕ) (cs : List Fcall)
    → ((c : Fcall) → drop c ≡ false → P c)
    → All (λ x. P x.1) (remaining drop n cs)
unfolding remaining
remaining-All drop n [] f = tt
remaining-All {P} drop n (c ∷ cs) f = elim (Bool-cases (drop c)) [
  | inl out ↦ rw out (remaining-All {P = P} drop (n + 1) cs f)
  | inr stays ↦ rw stays (f c stays, remaining-All {P = P} drop (n + 1) cs f)
]

-- The record stands somewhere in the list.
abbrev pub IsListed : Resource → List Resource → Type 0
IsListed r rs = (j : ℕ) × (get_elem? rs j ≡ some r)

some_inj : (x r : Resource) → Path (Option Resource) (some x) (some r) → x ≡ r
some_inj x r h = cc

resources_left-IsListed :
    (mask : ℕ) (rs : List Resource) (i : ℕ) (r : Resource)
    → get_elem? rs i ≡ some r
    → selects mask r.id ≡ true
    → IsListed r (resources_left mask rs)
unfolding resources_left
resources_left-IsListed mask [] i r h k = absurd cc
resources_left-IsListed mask (x ∷ rs) zero r h k =
    let e = some_inj x r h in rw (ap (λ y. selects mask y.id) e ∙ k) (0, ap some e)
resources_left-IsListed mask (x ∷ rs) (suc i) r h k =
    let (j, listed) = resources_left-IsListed mask rs i r h k in
    elim (Bool-cases (selects mask x.id)) [
      | inl stays ↦ rw stays (suc j, listed)
      | inr out ↦ rw out (j, listed)
    ]

-- The type that a call points to, if it has one, is still in the list.
abbrev pub HasType : List Resource → List Resource → Fcall → Type 0
HasType rs left c = (r : Resource) → at rs c.res_type ≡ some r → IsListed r left

not_out : (b : Bool) → not b ≡ false → b ≡ true
not_out true h = refl
not_out false h = absurd cc

at-get :
    (rs : List Resource) (o : Option ℕ) (r : Resource)
    → at rs o ≡ some r
    → (i : ℕ) × (get_elem? rs i ≡ some r)
at-get rs none r h = absurd cc
at-get rs (some i) r h = (i, h)

-- The mask has the bit of the type; without a type a call is never filtered.
abbrev pub wants : ℕ → Option Resource → Bool
wants mask none = true
wants mask (some r) = bit (r.id - 1) mask == 1

-- The ids for which the shift of a 32-bit word is defined.
abbrev pub HasBit : Resource → Type 0
HasBit r = (0 < r.id) × (r.id ≤ 32)

selects-wants : (mask : ℕ) (r : Resource) → HasBit r → selects mask r.id ≡ wants mask (some r)
unfolding selects
selects-wants mask r h =
    ap (λ w. not (bit_and w mask == 0))
      (word_power (r.id - 1) (let (a, b) = h in omega (arith, a, b)))
    ∙ bit_and-test (r.id - 1) mask

some-HasBit :
    (rs : List Resource) (i : ℕ) (r : Resource) → All HasBit rs → get_elem? rs i ≡ some r → HasBit r
some-HasBit [] i r h e = absurd cc
some-HasBit (x ∷ rs) zero r h e = subst HasBit (some_inj x r e) h.0
some-HasBit (x ∷ rs) (suc i) r h e = some-HasBit rs i r h.1 e

drops_type-wants :
    (mask : ℕ) (rs : List Resource) (o : Option ℕ)
    → All HasBit rs
    → drops_type mask (at rs o) ≡ not (wants mask (at rs o))
drops_type-wants mask rs none h = refl
drops_type-wants mask rs (some i) h = of_found (get_elem? rs i) (λ r e. some-HasBit rs i r h e)
  where
    of_found :
        (o : Option Resource)
        → ((r : Resource) → o ≡ some r → HasBit r)
        → drops_type mask o ≡ not (wants mask o)
    of_found none f = refl
    of_found (some r) f = ap not (selects-wants mask r (f r refl))

-- A type that is left is one of the list that the mask has.
left-IsListed :
    (mask : ℕ) (rs : List Resource) (j : ℕ) (r : Resource)
    → All HasBit rs
    → get_elem? (resources_left mask rs) j ≡ some r
    → IsListed r rs × (wants mask (some r) ≡ true)
unfolding resources_left
left-IsListed mask [] j r h e = absurd cc
left-IsListed mask (x ∷ rs) j r h e =
    let ih : (i : ℕ)
        → get_elem? (resources_left mask rs) i ≡ some r
        → IsListed r rs × (wants mask (some r) ≡ true) =
      λ i k. left-IsListed mask rs i r h.1 k in
    elim (Bool-cases (selects mask x.id)) [
      | inl stays ↦ of_head ih j (rw stays at e) stays
      | inr out ↦ behind (ih j (rw out at e))
    ]
  where
    behind :
        IsListed r rs × (wants mask (some r) ≡ true)
        → IsListed r (x ∷ rs) × (wants mask (some r) ≡ true)
    behind ((i, k), w) = ((suc i, k), w)

    of_head :
        ((i : ℕ)
          → get_elem? (resources_left mask rs) i ≡ some r
          → IsListed r rs × (wants mask (some r) ≡ true))
        → (j : ℕ) → get_elem? (x ∷ resources_left mask rs) j ≡ some r
        → selects mask x.id ≡ true
        → IsListed r (x ∷ rs) × (wants mask (some r) ≡ true)
    of_head ih zero e stays = (
      (0, e),
      ap (λ y. wants mask (some y)) (sym (some_inj x r e)) ∙ sym (selects-wants mask x h.0) ∙ stays,
    )
    of_head ih (suc j) e stays = behind (ih j e)

stays-HasType :
    (mask : ℕ) (rs : List Resource) (c : Fcall)
    → drops_resource mask rs c ≡ false
    → HasType rs (resources_left mask rs) c
unfolding drops_resource
stays-HasType mask rs c stays r h =
    let (i, stored) = at-get rs c.res_type r h in
    resources_left-IsListed mask rs i r stored
      (not_out (selects mask r.id) (sym (ap (drops_type mask) h) ∙ stays))

-- Let the ids of the resource types be between 1 and 32. `filter_resource` runs without a fault
-- and leaves, in order, exactly the calls without a type and those of whose type with the id n the
-- mask has the bit n - 1; the list of types keeps exactly the types of which the mask has this
-- bit, and the type of each call that is left, if it has one, is among them.
pub filter_resource-HasType :
    (mask : ℕ) (rs : List Resource) (cs : List Fcall)
    → All HasBit rs
    → (left : List Resource) × (calls : List Node) × (filter_resource mask rs cs
        ≡ some (left, calls))
      × (calls ≡ remaining (λ c. not (wants mask (at rs c.res_type))) 0 cs)
      × All (λ x. HasType rs left x.1) calls
      × ((r : Resource) → IsListed r left ↔ (IsListed r rs × (wants mask (some r) ≡ true)))
unfolding filter_resource
filter_resource-HasType mask rs cs h =
    let drop = drops_resource mask rs in
    let left = resources_left mask rs in
    (
      left,
      remaining drop 0 cs,
      ap (with_records left)
          (filter_calls-remaining (λ c. some (drop c)) drop cs (each_some drop cs)),
      ap (λ test. remaining test 0 cs)
          (fun_ext λ c. unfold drops_resource in drops_type-wants mask rs c.res_type h),
      remaining-All {P = HasType rs left} drop 0 cs (stays-HasType mask rs),
      λ r. (
        (λ listed. let (j, e) = listed in left-IsListed mask rs j r h e),
        (λ both.
            let ((i, e), w) = both in
            resources_left-IsListed mask rs i r e
              (selects-wants mask r (some-HasBit rs i r h e) ∙ w)),
      ),
    )

-- Calls that two opposite tests leave are all calls.
length-remaining :
    (p q : Fcall → Bool) (n : ℕ) (cs : List Fcall)
    → ((c : Fcall) → q c ≡ not (p c))
    → length (remaining p n cs) + length (remaining q n cs) ≡ length cs
unfolding remaining
length-remaining p q n [] h = refl
length-remaining p q n (c ∷ cs) h = elim (Bool-cases (p c)) [
  | inl out ↦
      rw (out, h c ∙ ap not out) (let ih = length-remaining p q (n + 1) cs h in omega (arith, ih))
  | inr stays ↦
      rw (stays, h c ∙ ap not stays)
        (let ih = length-remaining p q (n + 1) cs h in omega (arith, ih))
]

include_false : (b : Bool) → (b && false || not b && true) ≡ false → b ≡ true
include_false true h = refl
include_false false h = absurd cc

exclude_false : (b : Bool) → (b && true || not b && false) ≡ false → b ≡ false
exclude_false true h = absurd cc
exclude_false false h = refl

opposite : (b : Bool) → (b && true || not b && false) ≡ not (b && false || not b && true)
opposite true = refl
opposite false = refl

-- With the same file, `filter_include` leaves only calls whose index is in it, `filter_exclude`
-- only calls whose index is not, and both together leave as many calls as there were.
pub filter_include-filter_exclude :
    (found : ℕ → Bool) (cs : List Fcall)
    → (xs : List Node) × (ys : List Node) × (filter_include found cs ≡ some xs)
      × (filter_exclude found cs ≡ some ys)
      × All (λ x. found x.1.index ≡ true) xs
      × All (λ y. found y.1.index ≡ false) ys
      × (length xs + length ys ≡ length cs)
unfolding filter_include filter_exclude drops_index
filter_include-filter_exclude found cs =
    let p = drops_index true found in
    let q = drops_index false found in
    (
      remaining p 0 cs,
      remaining q 0 cs,
      filter_calls-remaining (λ c. some (p c)) p cs (each_some p cs),
      filter_calls-remaining (λ c. some (q c)) q cs (each_some q cs),
      remaining-All {P = λ c. found c.index ≡ true} p 0 cs (λ c. include_false (found c.index)),
      remaining-All {P = λ c. found c.index ≡ false} q 0 cs (λ c. exclude_false (found c.index)),
      length-remaining p q 0 cs (λ c. opposite (found c.index)),
    )
