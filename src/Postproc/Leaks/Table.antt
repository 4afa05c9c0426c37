-- ===== src/Postproc/Leaks/Table.antt =====
-- The table of allocated resources: one record for each resource.
use sp_rtrace.Prelude.{
  true, false, List, [], ◌∷◌, ◌++◌, ◌≡◌, refl, sym, ap, ◌∙◌, subst, Option, none, some, All,
  All-append, Bool-cases, inl, inr,
}
use sp_rtrace.Binary.Data.{Fcall, Resource}
use sp_rtrace.Postproc.Leaks.{Fres, Split, behind, find_res, store_res}
use sp_rtrace.Postproc.Leaks.Keys.{
  Distinct, IsPlain, same_key, same_key_sym, same_key_trans, collides-same_key,
}

-- No record of the call's resource.
abbrev pub NoKey : Fcall → List Fres → Type 0
NoKey c = All (λ t. same_key t.call c ≡ false)

abbrev pub Unique : List Fres → Type 0
Unique [] = Unit
Unique (t ∷ ts) = NoKey t.call ts × Unique ts

-- The table without the record that was found.
abbrev pub others : Option Split → List Fres → List Fres
others none ts = ts
others (some (before, r, after)) ts = before ++ after

-- What a search finds.
abbrev pub Found : Fcall → List Fres → Option Split → Type 0
Found c ts none = NoKey c ts
Found c ts (some (before, r, after)) =
    (ts ≡ before ++ r ∷ after) × (same_key r.call c ≡ true) × NoKey c (before ++ after)

NoKey-trans : (c d : Fcall) (ts : List Fres) → same_key c d ≡ true → NoKey c ts → NoKey d ts
NoKey-trans c d [] h k = tt
NoKey-trans c d (t ∷ ts) h k = (
  same_key_sym t.call d ∙ sym (same_key_trans c d t.call h) ∙ same_key_sym c t.call ∙ k.0,
  NoKey-trans c d ts h k.1,
)

behind-Found :
    (c : Fcall) (t : Fres) (ts : List Fres) (o : Option Split)
    → same_key t.call c ≡ false
    → Found c ts o
    → Found c (t ∷ ts) (behind t o)
behind-Found c t ts none h f = (h, f)
behind-Found c t ts (some (before, r, after)) h f = (ap (λ l. t ∷ l) f.0, f.1, (h, f.2))

pub find_res-Found :
    (rs : List Resource) (c : Fcall) (ts : List Fres)
    → Distinct rs
    → IsPlain rs c
    → All (λ t. IsPlain rs t.call) ts
    → Unique ts
    → Found c ts (find_res rs c ts)
unfolding find_res
find_res-Found rs c [] d h p u = tt
find_res-Found rs c (t ∷ ts) d h p u = elim (Bool-cases (same_key t.call c)) [
  | inl hit ↦
      rw (collides-same_key rs t.call c d p.0 h, hit) (refl, hit, NoKey-trans t.call c ts hit u.0)
  | inr miss ↦
      rw (collides-same_key rs t.call c d p.0 h, miss)
        (behind-Found c t ts (find_res rs c ts) miss (find_res-Found rs c ts d h p.1 u.1))
]

All-split_left {ℓ κ} :
    {A : Type ℓ} (P : A → Type κ) (xs ys : List A) → All P (xs ++ ys) → All P xs × All P ys
All-split_left P [] ys h = (tt, h)
All-split_left P (x ∷ xs) ys h = let (l, r) = All-split_left P xs ys h.1 in ((h.0, l), r)

pub All-others {κ} :
    (P : Fres → Type κ) (c : Fcall) (ts : List Fres) (o : Option Split)
    → Found c ts o
    → All P ts
    → All P (others o ts)
All-others P c ts none f h = h
All-others P c ts (some (before, r, after)) f h =
    let (l, m) = All-split_left P before (r ∷ after) (subst (All P) f.0 h) in
    All-append P before after l m.1

Unique-drop :
    (xs : List Fres) (r : Fres) (ys : List Fres) → Unique (xs ++ r ∷ ys) → Unique (xs ++ ys)
Unique-drop [] r ys h = h.1
Unique-drop (x ∷ xs) r ys h =
    let (l, m) = All-split_left (λ t. same_key t.call x.call ≡ false) xs (r ∷ ys) h.0 in
    (All-append _ xs ys l m.1, Unique-drop xs r ys h.1)

pub Unique-others :
    (c : Fcall) (ts : List Fres) (o : Option Split)
    → Found c ts o
    → Unique ts
    → Unique (others o ts)
Unique-others c ts none f h = h
Unique-others c ts (some (before, r, after)) f h = Unique-drop before r after (subst Unique f.0 h)

pub NoKey-others :
    (c : Fcall) (ts : List Fres) (o : Option Split) → Found c ts o → NoKey c (others o ts)
NoKey-others c ts none f = f
NoKey-others c ts (some (before, r, after)) f = f.2

pub Unique-concat :
    (ts : List Fres) (t : Fres) → Unique ts → NoKey t.call ts → Unique (ts ++ t ∷ [])
Unique-concat [] t u k = (tt, tt)
Unique-concat (x ∷ ts) t u k = (
  All-append _ ts (t ∷ []) u.0 (same_key_sym t.call x.call ∙ k.0, tt),
  Unique-concat ts t u.1 k.1,
)

pub store_res-others :
    (new : Fres) (ts : List Fres) (o : Option Split) → store_res new o ts ≡ others o ts ++ new ∷ []
unfolding store_res
store_res-others new ts none = refl
store_res-others new ts (some (before, r, after)) = refl
