-- ===== src/Postproc/Select/Kept.antt =====
-- What the filters leave.
use sp_rtrace.Prelude.{
  ℕ, ◌+◌, ◌<◌, Bool, List, [], ◌∷◌, ◌++◌, ◌≡◌, refl, sym, ap, ap₂, ◌∙◌, Option, some, All,
  All-append, append_assoc, if◌then◌else◌, Bool-cases, inl, inr, arith, ==_self,
}
use sp_rtrace.Binary.Data.{Fcall}
use sp_rtrace.Postproc.Leaks.{Node, numbered, remove_call}
use sp_rtrace.Postproc.Leaks.Keep.{remove_call-append, remove_call_below, remove_call-numbered}
use sp_rtrace.Postproc.Select.{remove_if, and_calls, remove_each, filter_calls}

-- The calls that a test does not drop, with their places from `n` on.
unfoldable pub remaining : (Fcall → Bool) → ℕ → List Fcall → List Node
remaining drop n [] = []
remaining drop n (c ∷ cs) =
    let rest = remaining drop (n + 1) cs in if drop c then rest else (n, c) ∷ rest

remove_here :
    (n : ℕ) (c : Fcall) (done : List Node) (cs : List Fcall)
    → All (λ x. x.0 < n) done
    → remove_call n (done ++ (n, c) ∷ numbered (n + 1) cs) ≡ done ++ numbered (n + 1) cs
unfolding remove_call
remove_here n c done cs h =
    remove_call-append n done ((n, c) ∷ numbered (n + 1) cs)
    ∙ ap₂ (λ a b. a ++ b) (remove_call_below n done h)
        (rw (==_self n) (remove_call-numbered n (n + 1) cs (omega arith)))

below_more : (n : ℕ) (done : List Node) → All (λ x. x.0 < n) done → All (λ x. x.0 < n + 1) done
below_more n [] h = tt
below_more n (x ∷ done) h = let l = h.0 in (omega (arith, l), below_more n done h.1)

remove_each-remaining :
    (test : Fcall → Option Bool) (drop : Fcall → Bool) (n : ℕ) (done : List Node) (cs : List Fcall)
    → All (λ c. test c ≡ some (drop c)) cs
    → All (λ x. x.0 < n) done
    → remove_each test (numbered n cs) (done ++ numbered n cs) ≡ some (done ++ remaining drop n cs)
unfolding remove_each remaining numbered
remove_each-remaining test drop n done [] h below = refl
remove_each-remaining test drop n done (c ∷ cs) h below =
    let xs = numbered (n + 1) cs in
    ap (λ t. and_calls (remove_if t n (done ++ (n, c) ∷ xs)) (remove_each test xs)) h.0
    ∙ elim (Bool-cases (drop c)) [
      | inl out ↦ rw out (
          ap (remove_each test xs) (remove_here n c done cs below)
          ∙ remove_each-remaining test drop (n + 1) done cs h.1 (below_more n done below))
      | inr stays ↦ rw stays (
          ap (remove_each test xs) (sym (append_assoc done ((n, c) ∷ []) xs))
          ∙ remove_each-remaining test drop (n + 1) (done ++ (n, c) ∷ []) cs h.1 (
              All-append (λ x. x.0 < n + 1) done ((n, c) ∷ []) (below_more n done below)
                (omega arith, tt))
          ∙ ap some (append_assoc done ((n, c) ∷ []) (remaining drop (n + 1) cs)))
    ]

pub filter_calls-remaining :
    (test : Fcall → Option Bool) (drop : Fcall → Bool) (cs : List Fcall)
    → All (λ c. test c ≡ some (drop c)) cs
    → filter_calls test cs ≡ some (remaining drop 0 cs)
unfolding filter_calls
filter_calls-remaining test drop cs h = remove_each-remaining test drop 0 [] cs h tt
