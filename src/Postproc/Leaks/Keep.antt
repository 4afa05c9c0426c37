-- ===== src/Postproc/Leaks/Keep.antt =====
-- Nodes that are dropped from a list.
use sp_rtrace.Prelude.{
  ℕ, ◌+◌, ◌<◌, Bool, false, List, [], ◌∷◌, ◌++◌, ◌≡◌, refl, ap, All, ◌==◌, ◌||◌, if◌then◌else◌,
  Bool-cases, inl, inr, arith,
}
use sp_rtrace.Binary.Data.{Fcall}
use sp_rtrace.Postproc.Leaks.{Node, remove_call, numbered}

-- The nodes that a test does not drop.
unfoldable pub keep : (ℕ → Bool) → List Node → List Node
keep p [] = []
keep p ((m, c) ∷ xs) = let rest = keep p xs in if p m then rest else (m, c) ∷ rest

pub keep-append : (p : ℕ → Bool) (xs ys : List Node) → keep p (xs ++ ys) ≡ keep p xs ++ keep p ys
unfolding keep
keep-append p [] ys = refl
keep-append p ((m, c) ∷ xs) ys = elim (Bool-cases (p m)) [
  | inl out ↦ rw out (keep-append p xs ys)
  | inr stays ↦ rw stays (ap (λ l. (m, c) ∷ l) (keep-append p xs ys))
]

pub keep_all : (p : ℕ → Bool) (xs : List Node) → ((n : ℕ) → p n ≡ false) → keep p xs ≡ xs
unfolding keep
keep_all p [] h = refl
keep_all p ((m, c) ∷ xs) h = rw (h m) (ap (λ l. (m, c) ∷ l) (keep_all p xs h))

-- To remove a node first is to drop it, too.
pub keep-remove_call :
    (p : ℕ → Bool) (r : ℕ) (xs : List Node)
    → keep p (remove_call r xs) ≡ keep (λ m. m == r || p m) xs
unfolding keep remove_call
keep-remove_call p r [] = refl
keep-remove_call p r ((m, c) ∷ xs) = elim (Bool-cases (m == r)) [
  | inl out ↦ rw out (keep-remove_call p r xs)
  | inr other ↦ elim (Bool-cases (p m)) [
    | inl drops ↦ rw (other, drops) (keep-remove_call p r xs)
    | inr stays ↦ rw (other, stays) (ap (λ l. (m, c) ∷ l) (keep-remove_call p r xs))
  ]
]

pub remove_call-append :
    (r : ℕ) (xs ys : List Node) → remove_call r (xs ++ ys) ≡ remove_call r xs ++ remove_call r ys
unfolding remove_call
remove_call-append r [] ys = refl
remove_call-append r ((m, c) ∷ xs) ys = elim (Bool-cases (m == r)) [
  | inl out ↦ rw out (remove_call-append r xs ys)
  | inr other ↦ rw other (ap (λ l. (m, c) ∷ l) (remove_call-append r xs ys))
]

pub remove_call_below : (r : ℕ) (xs : List Node) → All (λ x. x.0 < r) xs → remove_call r xs ≡ xs
unfolding remove_call
remove_call_below r [] h = refl
remove_call_below r ((m, c) ∷ xs) h =
    let l = h.0 in
    let e : (m == r) ≡ false = ground (arith, l) in
    rw e (ap (λ l. (m, c) ∷ l) (remove_call_below r xs h.1))

pub remove_call-numbered :
    (r n : ℕ) (cs : List Fcall) → r < n → remove_call r (numbered n cs) ≡ numbered n cs
unfolding remove_call numbered
remove_call-numbered r n [] h = refl
remove_call-numbered r n (c ∷ cs) h =
    let e : (n == r) ≡ false = ground (arith, h) in
    rw e (ap (λ l. (n, c) ∷ l) (remove_call-numbered r (n + 1) cs (omega (arith, h))))

pub All-remove_call :
    (P : Node → Type 0) (r : ℕ) (xs : List Node) → All P xs → All P (remove_call r xs)
unfolding remove_call
All-remove_call P r [] h = tt
All-remove_call P r ((m, c) ∷ xs) h = elim (Bool-cases (m == r)) [
  | inl out ↦ rw out (All-remove_call P r xs h.1)
  | inr other ↦ rw other (h.0, All-remove_call P r xs h.1)
]
