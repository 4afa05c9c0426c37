-- ===== src/Postproc/Leaks/Keys.antt =====
-- What makes two calls about the same resource.
use sp_rtrace.Prelude.{
  both_true, ℕ, ◌%◌, ◌^◌, Bool, true, false, List, ◌≡◌, refl, sym, ap, ap₂, ◌∙◌, Option, none, some,
  bit_and, ◌==◌, ◌&&◌, get_elem?, arith, Bool-cases, inl, inr, ==_self,
}
use sp_rtrace.Binary.Data.{Fcall, Resource, hash_value}
use sp_rtrace.Postproc.Leaks.{
  same_pointer, at, id_of, same_res, res_hash, hash_type, collides, refcounted,
}

-- The registry gives each type an id of its own.
abbrev pub Distinct : List Resource → Type 0
Distinct rs =
    (i j : ℕ) (x y : Resource)
    → get_elem? rs i ≡ some x
    → get_elem? rs j ≡ some y
    → x.id ≡ y.id
    → i ≡ j

-- The call has a registered type without reference counts.
pub record IsPlain (rs : List Resource) (c : Fcall) : Type 0 where
  pub position : ℕ
  pub resource : Resource
  pub typed : c.res_type ≡ some position
  pub stored : get_elem? rs position ≡ some resource
  pub plain : bit_and resource.flags 1 ≡ 0

-- The same type and the same identifier.
unfoldable pub same_key : Fcall → Fcall → Bool
same_key a b = same_pointer a.res_type b.res_type && a.res_id == b.res_id

pub refcounted-false :
    (rs : List Resource) (c : Fcall) → IsPlain rs c → refcounted rs c ≡ some false
refcounted-false rs c h =
    let e : (bit_and h.resource.flags 1 == 0) ≡ true = rw h.plain refl in rw (h.typed, h.stored, e)

-- Equal keys have equal hash values.
same_bucket :
    (rs : List Resource) (a b : Fcall)
    → a.res_type ≡ b.res_type
    → a.res_id ≡ b.res_id
    → (res_hash rs a % 2 ^ 16 == res_hash rs b % 2 ^ 16) ≡ true
unfolding res_hash
same_bucket rs a b e f =
    let h = ap₂ (λ t v. hash_type rs (hash_value 22 0 v) (id_of (at rs t)) % 2 ^ 16) e f in
    ap (λ x. x == res_hash rs b % 2 ^ 16) h ∙ ==_self (res_hash rs b % 2 ^ 16)

pub and_false : (b : Bool) → (b && false) ≡ false
and_false true = refl
and_false false = refl

some_inj : (i j : ℕ) → Path (Option ℕ) (some i) (some j) → i ≡ j
some_inj i j h = cc

pub collides-same_key :
    (rs : List Resource) (a b : Fcall)
    → Distinct rs
    → IsPlain rs a
    → IsPlain rs b
    → collides rs a b ≡ same_key a b
unfolding collides same_res same_key
collides-same_key rs a b d h k = elim (Bool-cases (h.position == k.position)) [
  | inl same ↦
      (let i : h.position ≡ k.position = ground (arith, same) in
        let pointers = h.typed ∙ ap some i ∙ sym k.typed in
        elim (Bool-cases (a.res_id == b.res_id)) [
          | inl ids ↦
              (let bucket = same_bucket rs a b pointers (ground (arith, ids)) in
                rw (bucket, h.typed, k.typed, same, ids) refl)
          | inr ids ↦ rw (h.typed, k.typed, same, ids) (and_false _)
        ])
  | inr other ↦
      (let ids : (h.resource.id == k.resource.id) ≡ false =
          elim (Bool-cases (h.resource.id == k.resource.id)) [
            | inl e ↦
                (let i =
                    d h.position k.position h.resource k.resource h.stored k.stored
                      (ground (arith, e)) in
                  absurd (ground (arith, other, i)))
            | inr e ↦ e
          ] in
        rw (h.typed, k.typed, other, h.stored, k.stored, ids) (and_false _))
]

same_pointer_sym : (o u : Option ℕ) → same_pointer o u ≡ same_pointer u o
same_pointer_sym none none = refl
same_pointer_sym none (some j) = refl
same_pointer_sym (some i) none = refl
same_pointer_sym (some i) (some j) = ground arith

pub same_key_sym : (a b : Fcall) → same_key a b ≡ same_key b a
unfolding same_key
same_key_sym a b =
    let e : (a.res_id == b.res_id) ≡ (b.res_id == a.res_id) = ground arith in
    ap₂ ◌&&◌ (same_pointer_sym a.res_type b.res_type) e

same_pointer-eq : (o u : Option ℕ) → same_pointer o u ≡ true → o ≡ u
same_pointer-eq none none h = refl
same_pointer-eq none (some j) h = cc
same_pointer-eq (some i) none h = cc
same_pointer-eq (some i) (some j) h = let e : i ≡ j = ground (arith, h) in ap some e

pub same_key_trans : (a b c : Fcall) → same_key a b ≡ true → same_key a c ≡ same_key b c
unfolding same_key
same_key_trans a b c h =
    let (p, i) = both_true (same_pointer a.res_type b.res_type) (a.res_id == b.res_id) h in
    let e : a.res_id ≡ b.res_id = ground (arith, i) in
    ap₂ (λ o v. same_pointer o c.res_type && v == c.res_id)
      (same_pointer-eq a.res_type b.res_type p) e
