-- ===== src/Modules/Shmposix/Distinct.antt =====
-- The numbers of object names: the search for a free one ends, and no two names share one.
use sp_rtrace.Prelude.{
  ℕ, zero, suc, ◌+◌, ◌-◌, ◌%◌, ◌^◌, ◌<◌, ◌≤◌, true, false, [], ◌∷◌, Option, none, some, ◌==◌, ◌||◌,
  ◌≡◌, refl, ap, ◌∙◌, sym, if◌then◌else◌, length, arith, Bool-cases, Option-cases, inl, inr, ap₂,
  both_true,
}
use sp_rtrace.Proto.Memory.{Bytes}
use sp_rtrace.Tracer.Register.{same_text}
use sp_rtrace.Modules.Shmposix.Names.{
  Names, nreg_hash_exists, next_free, nreg_calc_hash, nreg_calc_raw_hash, find_name, nreg_get_hash,
}

some_ne_none : (k : ℕ) → Path (Option ℕ) (some k) none → ⊥
some_ne_none k e = cc

-- The names but those of one number.
drop_hash : ℕ → Names → Names
drop_hash hash [] = []
drop_hash hash ((t, h) ∷ names) =
    let rest = drop_hash hash names in if h == hash then rest else (t, h) ∷ rest

drop_hash-le : (hash : ℕ) (names : Names) → length (drop_hash hash names) ≤ length names
unfolding drop_hash
drop_hash-le hash [] = omega arith
drop_hash-le hash (x ∷ names) = ground (arith, drop_hash-le hash names)

drop_hash-lt :
    (hash : ℕ) (names : Names)
    → nreg_hash_exists hash names ≡ true
    → length (drop_hash hash names) < length names
unfolding drop_hash nreg_hash_exists
drop_hash-lt hash [] h = cc
drop_hash-lt hash (x ∷ names) h = ground (arith, drop_hash-lt hash names, drop_hash-le hash names)

exists-drop_hash :
    (hash other : ℕ) (names : Names)
    → (hash == other) ≡ false
    → nreg_hash_exists other (drop_hash hash names) ≡ nreg_hash_exists other names
unfolding drop_hash nreg_hash_exists
exists-drop_hash hash other [] h = refl
exists-drop_hash hash other ((t, k) ∷ names) h = elim (Bool-cases (k == hash)) [
  | inl same ↦
      (let e : (k == other) ≡ false = ground (arith, same, h) in
        rw (same, e) (exists-drop_hash hash other names h))
  | inr differs ↦ rw differs (ap (λ b. k == other || b) (exists-drop_hash hash other names h))
]

-- `f` numbers from `hash` on.
abbrev AllTaken : ℕ → ℕ → Names → Type 0
AllTaken f hash names = (i : ℕ) → i < f → nreg_hash_exists ((hash + i) % 2 ^ 32) names ≡ true

-- Different numbers that are all taken are as many names.
taken-le : (f hash : ℕ) (names : Names) → f ≤ 2 ^ 32 → AllTaken f hash names → f ≤ length names
taken-le zero hash names bound h = omega arith
taken-le (suc f) hash names bound h =
    let last = (hash + f) % 2 ^ 32 in
    let fewer = drop_hash-lt last names (h f (omega arith)) in
    let rest = taken-le f hash (drop_hash last names) (omega arith) (λ i lt.
      let differs : (last == (hash + i) % 2 ^ 32) ≡ false = ground (arith, lt, bound) in
      exists-drop_hash last ((hash + i) % 2 ^ 32) names differs ∙ h i (omega arith)) in
    omega (arith, fewer, rest)

next_free-taken :
    (f hash : ℕ) (names : Names)
    → hash < 2 ^ 32
    → next_free f hash names ≡ none
    → AllTaken f hash names
unfolding next_free
next_free-taken zero hash names b e i lt = absurd (omega arith)
next_free-taken (suc f) hash names b e i lt = elim (Bool-cases (nreg_hash_exists hash names)) [
  | inl taken ↦ elim (Bool-cases (i == 0)) [
    | inl first ↦
        (let p : (hash + i) % 2 ^ 32 ≡ hash = ground (arith, first, b) in
          ap (λ k. nreg_hash_exists k names) p ∙ taken)
    | inr later ↦
        (let p : (hash + i) % 2 ^ 32 ≡ ((hash + 1) % 2 ^ 32 + (i - 1)) % 2 ^ 32 =
            ground (arith, later) in
          ap (λ k. nreg_hash_exists k names) p
          ∙ next_free-taken f ((hash + 1) % 2 ^ 32) names (omega arith) (rw taken at e) (i - 1)
              (ground (arith, later, lt)))
  ]
  | inr free ↦ absurd (some_ne_none hash (rw free at e))
]

raw_hash-lt : (name : Bytes) → nreg_calc_raw_hash name < 2 ^ 32
unfolding nreg_calc_raw_hash
raw_hash-lt name = omega arith

next_free-free :
    (f hash k : ℕ) (names : Names)
    → next_free f hash names ≡ some k
    → nreg_hash_exists k names ≡ false
unfolding next_free
next_free-free zero hash k names e = cc
next_free-free (suc f) hash k names e = elim (Bool-cases (nreg_hash_exists hash names)) [
  | inl taken ↦ next_free-free f ((hash + 1) % 2 ^ 32) k names (rw taken at e)
  | inr free ↦
      (let p : hash ≡ k = ground (arith, rw free at e) in
        ap (λ j. nreg_hash_exists j names) (sym p) ∙ free)
]

calc_hash_total :
    (name : Bytes) (names : Names)
    → length names < 2 ^ 32
    → (k : ℕ) × (nreg_calc_hash name names ≡ some k) × (nreg_hash_exists k names ≡ false)
unfolding nreg_calc_hash
calc_hash_total name names h =
    let n = suc (length names) in
    elim (Option-cases (next_free n (nreg_calc_raw_hash name) names)) [
      | inl none_left ↦ absurd (
          omega (
            arith,
            taken-le n (nreg_calc_raw_hash name) names h
                (next_free-taken n (nreg_calc_raw_hash name) names (raw_hash-lt name) none_left),
          ))
      | inr (k, e) ↦ (k, e, next_free-free n (nreg_calc_raw_hash name) k names e)
    ]

-- No name and no number stands twice.
abbrev pub IsDistinct : Names → Type 0
IsDistinct [] = Unit
IsDistinct ((t, h) ∷ names) =
    (nreg_hash_exists h names ≡ false) × (find_name t names ≡ none) × IsDistinct names

same_text-eq : (s t : Bytes) → same_text s t ≡ true → s ≡ t
unfolding same_text
same_text-eq [] [] h = refl
same_text-eq [] (b ∷ t) h = cc
same_text-eq (a ∷ s) [] h = cc
same_text-eq (a ∷ s) (b ∷ t) h =
    let (e, rest) = both_true (a == b) (same_text s t) h in
    let p : a ≡ b = ground (arith, e) in ap₂ (λ x y. x ∷ y) p (same_text-eq s t rest)

same_text_self : (s : Bytes) → same_text s s ≡ true
unfolding same_text
same_text_self [] = refl
same_text_self (c ∷ s) = ground (arith, same_text_self s)

found_exists :
    (t : Bytes) (k : ℕ) (names : Names)
    → find_name t names ≡ some k
    → nreg_hash_exists k names ≡ true
unfolding find_name nreg_hash_exists
found_exists t k [] e = cc
found_exists t k ((u, h) ∷ names) e = elim (Bool-cases (same_text u t)) [
  | inl here ↦ ground (arith, rw here at e)
  | inr there ↦ ground (arith, found_exists t k names (rw there at e))
]

-- What `nreg_get_hash` does for the registry: the name has the number, no other name has it, and
-- all others keep theirs.
pub record Gets (name : Bytes) (names : Names) (k : ℕ) (after : Names) : Type 0 where
  pub distinct : IsDistinct after
  pub has_number : find_name name after ≡ some k
  pub its_own : (t : Bytes) → find_name t after ≡ some k → t ≡ name
  pub others : (t : Bytes) (j : ℕ) → find_name t names ≡ some j → find_name t after ≡ some j
  pub longer : length after ≤ suc (length names)

clash :
    (h k : ℕ) (names : Names)
    → nreg_hash_exists h names ≡ false
    → Path (Option ℕ) (some h) (some k)
    → nreg_hash_exists k names ≡ true
    → ⊥
clash h k names free e taken =
    let p : h ≡ k = ground (arith, e) in ground (arith, ap (λ j. nreg_hash_exists j names) p)

owner :
    (s t : Bytes) (k : ℕ) (names : Names)
    → IsDistinct names
    → find_name s names ≡ some k
    → find_name t names ≡ some k
    → t ≡ s
unfolding find_name
owner s t k [] d p q = cc
owner s t k ((u, h) ∷ names) d p q = elim (Bool-cases (same_text u s)) [
  | inl here ↦ elim (Bool-cases (same_text u t)) [
    | inl also ↦ sym (same_text-eq u t also) ∙ same_text-eq u s here
    | inr not_here ↦
        absurd (clash h k names d.0 (rw here at p) (found_exists t k names (rw not_here at q)))
  ]
  | inr not_here ↦ elim (Bool-cases (same_text u t)) [
    | inl here ↦
        absurd (clash h k names d.0 (rw here at q) (found_exists s k names (rw not_here at p)))
    | inr neither ↦ owner s t k names d.2 (rw not_here at p) (rw neither at q)
  ]
]

its_own_new :
    (name : Bytes) (k : ℕ) (names : Names)
    → nreg_hash_exists k names ≡ false
    → (t : Bytes) → find_name t ((name, k) ∷ names) ≡ some k
    → t ≡ name
unfolding find_name
its_own_new name k names free t f = elim (Bool-cases (same_text name t)) [
  | inl here ↦ sym (same_text-eq name t here)
  | inr there ↦ absurd (clash k k names free refl (found_exists t k names (rw there at f)))
]

others_kept :
    (name : Bytes) (k : ℕ) (names : Names)
    → find_name name names ≡ none
    → (t : Bytes) (j : ℕ) → find_name t names ≡ some j
    → find_name t ((name, k) ∷ names) ≡ some j
unfolding find_name
others_kept name k names absent t j f = elim (Bool-cases (same_text name t)) [
  | inl here ↦ absurd (
      some_ne_none j
        (sym f ∙ ap (λ s. find_name s names) (sym (same_text-eq name t here)) ∙ absent))
  | inr there ↦ rw there f
]

-- For a registry of less than 2 ^ 32 names without a name or a number that stands twice, the
-- search for a free number ends, wrap-around included: `nreg_get_hash` returns a number that the
-- registry then has for this name and no other, all other names keep their numbers, no name or
-- number stands twice, and at most one name is new.
pub nreg_get_hash-Gets :
    (name : Bytes) (names : Names)
    → length names < 2 ^ 32
    → IsDistinct names
    → (k : ℕ) × (after : Names) × (nreg_get_hash name names ≡ some (k, after))
      × Gets name names k after
unfolding nreg_get_hash
nreg_get_hash-Gets name names h d = elim (Option-cases (find_name name names)) [
  | inl absent ↦
      (let (k, e, free) = calc_hash_total name names h in
        (
          k,
          (name, k) ∷ names,
          rw (absent, e),
          record {
            distinct = (free, absent, d);
            has_number = unfold find_name in rw (same_text_self name);
            its_own = its_own_new name k names free;
            others = others_kept name k names absent;
            longer = omega arith;
          },
        ))
  | inr (k, e) ↦ (
    k,
    names,
    rw e,
    record {
      distinct = d;
      has_number = e;
      its_own = λ t f. owner name t k names d e f;
      others = λ t j f. f;
      longer = omega arith;
    },
  )
]
