-- ===== src/Modules/Held.antt =====
-- What reported calls tell of the resources that are held, and which of them the calls themselves
-- still leave, for any kind of key.
use sp_rtrace.Prelude.{
  both_true, ℕ, ◌+◌, Bool, true, false, List, [], ◌∷◌, ◌++◌, ◌≡◌, refl, sym, ap, ap₂, ◌∙◌, ◌==◌,
  ◌&&◌, ◌||◌, not, if◌then◌else◌, map, append_assoc, append-nil, Bool-cases, inl, inr, arith, All,
}
use sp_rtrace.Binary.Data.{Fcall}
use sp_rtrace.Postproc.Leaks.{type_alloc, type_free, Node}
use sp_rtrace.Postproc.Leaks.Keys.{same_key}
use sp_rtrace.Postproc.Leaks.Pending.{leaks, freed_later}

-- The type of a reported call, and the key of its resource.
abbrev pub Action : Type 0 → Type 0
Action K = ℕ × K

module _ {K : Type 0} (eq : K → K → Bool) where
  -- A resource is given back; one that is not held changes nothing.
  unfoldable pub release : K → List K → List K
  release key [] = []
  release key (x ∷ live) = let rest = release key live in if eq x key then rest else x ∷ rest

  -- What the reported calls say about the resources that are held, oldest first.
  unfoldable pub told : List (Action K) → List K → List K
  told [] live = live
  told ((type, key) ∷ rest) live = told rest (
      if type == type_alloc
      then live ++ key ∷ []
      else if type == type_free
      then release key live
      else live)

  pub told-append :
      (xs ys : List (Action K)) (live : List K) → told (xs ++ ys) live ≡ told ys (told xs live)
  unfolding told
  told-append [] ys live = refl
  told-append ((type, key) ∷ xs) ys live = told-append xs ys _

  unfoldable pub is_held : K → List K → Bool
  is_held x [] = false
  is_held x (y ∷ live) = eq y x || is_held x live

  -- The calls are all allocations or deallocations, and none allocates what is held.
  unfoldable pub fresh : List (Action K) → List K → Bool
  fresh [] live = true
  fresh ((type, key) ∷ rest) live =
      (type == type_alloc && not (is_held key live) || type == type_free)
      && fresh rest (told ((type, key) ∷ []) live)

  pub fresh-append :
      (xs ys : List (Action K)) (live : List K)
      → fresh (xs ++ ys) live ≡ (fresh xs live && fresh ys (told xs live))
  unfolding fresh told
  fresh-append [] ys live = refl
  fresh-append ((type, key) ∷ xs) ys live =
      let now = type == type_alloc && not (is_held key live) || type == type_free in
      let after = told ((type, key) ∷ []) live in
      ap (λ b. now && b) (fresh-append xs ys after)
      ∙ sym (and_assoc now (fresh xs after) (fresh ys (told xs after)))
    where
      and_assoc : (a b c : Bool) → ((a && b) && c) ≡ (a && (b && c))
      and_assoc true b c = refl
      and_assoc false b c = refl

  pub release_absent :
      (key : K) (live : List K) → is_held key live ≡ false → release key live ≡ live
  unfolding release is_held
  release_absent key [] h = refl
  release_absent key (x ∷ live) h =
      let other : eq x key ≡ false = ground (arith, h) in
      let rest : is_held key live ≡ false = ground (arith, h) in
      rw other (ap (λ l. x ∷ l) (release_absent key live rest))

  -- Whether the next call about the resource is a deallocation.
  unfoldable pub gone : K → List (Action K) → Bool
  gone x [] = false
  gone x ((type, key) ∷ rest) =
      let later = gone x rest in
      if eq x key
      then if type == type_alloc then false else if type == type_free then true else later
      else later

  unfoldable pub staying : List (Action K) → List K → List K
  staying acts [] = []
  staying acts (x ∷ live) = let rest = staying acts live in if gone x acts then rest else x ∷ rest

  staying_nil : (live : List K) → staying [] live ≡ live
  unfolding staying gone
  staying_nil [] = refl
  staying_nil (x ∷ live) = ap (λ l. x ∷ l) (staying_nil live)

  staying-concat :
      (acts : List (Action K)) (live : List K) (x : K)
      → staying acts (live ++ x ∷ []) ≡ staying acts live ++ (if gone x acts then [] else x ∷ [])
  unfolding staying
  staying-concat acts [] x = refl
  staying-concat acts (y ∷ live) x = elim (Bool-cases (gone y acts)) [
    | inl out ↦ rw out (staying-concat acts live x)
    | inr stays ↦ rw stays (ap (λ l. y ∷ l) (staying-concat acts live x))
  ]

  staying_alloc :
      (type : ℕ) (key : K) (acts : List (Action K)) (live : List K)
      → is_held key live ≡ false
      → staying ((type, key) ∷ acts) live ≡ staying acts live
  unfolding staying is_held gone
  staying_alloc type key acts [] h = refl
  staying_alloc type key acts (x ∷ live) h =
      let other : eq x key ≡ false = ground (arith, h) in
      let rest : is_held key live ≡ false = ground (arith, h) in
      rw other (ap (λ l. if gone x acts then l else x ∷ l) (staying_alloc type key acts live rest))

  staying_free :
      (key : K) (acts : List (Action K)) (live : List K)
      → staying ((type_free, key) ∷ acts) live ≡ staying acts (release key live)
  unfolding staying release gone
  staying_free key acts [] = refl
  staying_free key acts (x ∷ live) = elim (Bool-cases (eq x key)) [
    | inl out ↦ rw out (staying_free key acts live)
    | inr other ↦ rw other (ap (λ l. if gone x acts then l else x ∷ l) (staying_free key acts live))
  ]

  told_alloc :
      (type : ℕ) (key : K) (rest : List (Action K)) (live : List K)
      → (type == type_alloc) ≡ true
      → told ((type, key) ∷ rest) live ≡ told rest (live ++ key ∷ [])
  unfolding told
  told_alloc type key rest live a =
      ap
        (λ b.
          told rest
            (if b then live ++ key ∷ [] else if type == type_free then release key live else live))
        a

  told_free :
      (type : ℕ) (key : K) (rest : List (Action K)) (live : List K)
      → (type == type_alloc) ≡ false
      → (type == type_free) ≡ true
      → told ((type, key) ∷ rest) live ≡ told rest (release key live)
  unfolding told
  told_free type key rest live a e =
      ap₂ (λ b d. told rest (if b then live ++ key ∷ [] else if d then release key live else live))
        a e

not_holds : (b : Bool) → not b ≡ true → b ≡ false
not_holds true h = cc
not_holds false h = refl

or_nothing : (b : Bool) → (b || false) ≡ true → b ≡ true
or_nothing true h = refl
or_nothing false h = h

-- Keys of stored calls that compare as the post-processor compares the calls.
module _ {K : Type 0} (eq : K → K → Bool) (key_of : Fcall → K) (IsKeyed : Fcall → Type 0)
    (keyed : (c d : Fcall) → IsKeyed c → IsKeyed d → same_key c d ≡ eq (key_of c) (key_of d)) where
  abbrev pub stored_action : Fcall → Action K
  stored_action c = (c.type, key_of c)

  abbrev pub key_at : Node → K
  key_at x = key_of x.1

  freed_later-gone :
      (c : Fcall) (cs : List Fcall)
      → IsKeyed c
      → All IsKeyed cs
      → freed_later c cs ≡ gone eq (key_of c) (map stored_action cs)
  unfolding freed_later gone
  freed_later-gone c [] h k = refl
  freed_later-gone c (d ∷ cs) h k = rw (keyed c d h k.0, freed_later-gone c cs h k.1)

  -- Every resource that the calls tell of as held is one that stays, or one of a call that is left.
  pub told-leaks :
      (cs : List Fcall) (n : ℕ) (live : List K)
      → All IsKeyed cs
      → fresh eq (map stored_action cs) live ≡ true
      → told eq (map stored_action cs) live
        ≡ staying eq (map stored_action cs) live ++ map key_at (leaks n cs)
  unfolding told fresh leaks
  told-leaks [] n live h f = sym (append-nil (staying eq [] live) ∙ staying_nil eq live)
  told-leaks (c ∷ cs) n live h f =
      let later = map stored_action cs in
      let key = key_of c in
      let keys = map key_at (leaks (n + 1) cs) in
      elim (Bool-cases (c.type == type_alloc)) [
        | inl a ↦
            (let e : (c.type == type_free) ≡ false = ground (arith, a) in
              let (new, rest) = both_true _ _ (rw (a, e) at f) in
              let absent = not_holds _ (or_nothing _ new) in
              told_alloc eq c.type key later live a
              ∙ told-leaks cs (n + 1) (live ++ key ∷ []) h.1 rest
              ∙ ap (λ l. l ++ keys) (staying-concat eq later live key)
              ∙ append_assoc (staying eq later live) (if gone eq key later then [] else key ∷ [])
                  keys
              ∙ rw (a, staying_alloc eq c.type key later live absent, freed_later-gone c cs h.0 h.1)
                  (elim (Bool-cases (gone eq key later)) [
                    | inl out ↦ rw out
                    | inr stays ↦ rw stays
                  ]))
        | inr a ↦
            (let (now, rest) = both_true _ _ (rw a at f) in
              let free : c.type ≡ type_free = ground (arith, now) in
              told_free eq c.type key later live a now
              ∙ told-leaks cs (n + 1) (release eq key live) h.1 (rw now at rest)
              ∙ rw (a, now)
                  (ap (λ l. l ++ keys)
                    (sym (
                      ap (λ t. staying eq ((t, key) ∷ later) live) free
                      ∙ staying_free eq key later live))))
      ]
