-- ===== src/Postproc/Leaks/Nodes.antt =====
-- The nodes before and behind the current call, and the invariant between two calls.
use sp_rtrace.Prelude.{
  ℕ, ◌+◌, ◌<◌, Bool, true, false, List, [], ◌∷◌, ◌++◌, ◌≡◌, refl, ap, ap₂, ◌∙◌, subst, Option, none,
  some, All, append_assoc, ◌==◌, ◌||◌, if◌then◌else◌, Bool-cases, inl, inr, arith, ==_self,
}
use sp_rtrace.Binary.Data.{Fcall, Resource}
use sp_rtrace.Postproc.Leaks.{
  Node, Fres, Index, Split, remove_call, step_alloc, step_free, numbered,
}
use sp_rtrace.Postproc.Leaks.Keys.{IsPlain}
use sp_rtrace.Postproc.Leaks.Table.{Unique, Found, others, store_res-others}
use sp_rtrace.Postproc.Leaks.Pending.{freed_later, pending, pending-append, pending_below, is_found}
use sp_rtrace.Postproc.Leaks.Keep.{
  keep, keep-append, keep-remove_call, remove_call-append, remove_call_below, remove_call-numbered,
  All-remove_call,
}

pub All-map {ℓ κ μ} :
    {A : Type ℓ} {P : A → Type κ} {Q : A → Type μ} (xs : List A)
    → ((x : A) → P x → Q x)
    → All P xs
    → All Q xs
All-map [] f h = tt
All-map (x ∷ xs) f h = (f x h.0, All-map xs f h.1)

pub keep_congr :
    (p q : ℕ → Bool) (xs : List Node) → All (λ x. p x.0 ≡ q x.0) xs → keep p xs ≡ keep q xs
unfolding keep
keep_congr p q [] h = refl
keep_congr p q ((m, c) ∷ xs) h =
    ap₂ (λ b l. if b then l else (m, c) ∷ l) h.0 (keep_congr p q xs h.1)

-- The invariant in front of call `n`: `done` are the nodes before it that are left.
pub record Ready (rs : List Resource) (n : ℕ) (done : List Node) (table : List Fres) : Type 0 where
  pub plain : All (λ t. IsPlain rs t.call) table
  pub unique : Unique table
  pub earlier : All (λ t. t.node < n) table
  pub below : All (λ x. x.0 < n) done

abbrev pub record_of : ℕ → Fcall → Fres
record_of n c = record { node = n; call = c; ref_count = 1 }

pub step_alloc-plain :
    (n : ℕ) (c : Fcall) (o : Option Split) (s : Index)
    → step_alloc (n, c) o (some false) s
      ≡ some (record { calls = s.calls; table = others o s.table ++ record_of n c ∷ [] })
unfolding step_alloc
step_alloc-plain n c none s =
    ap (λ t. some (record { calls = s.calls; table = t })) (store_res-others _ s.table none)
step_alloc-plain n c (some found) s =
    ap (λ t. some (record { calls = s.calls; table = t })) (store_res-others _ s.table (some found))

abbrev pub without : Option Split → List Node → List Node
without none xs = xs
without (some (before, r, after)) xs = remove_call r.node xs

All-middle {ℓ κ} :
    {A : Type ℓ} (P : A → Type κ) (xs : List A) (x : A) (ys : List A) → All P (xs ++ x ∷ ys) → P x
All-middle P [] x ys h = h.0
All-middle P (y ∷ xs) x ys h = All-middle P xs x ys h.1

pub without-All :
    (P : Node → Type 0) (o : Option Split) (xs : List Node) → All P xs → All P (without o xs)
without-All P none xs h = h
without-All P (some (before, r, after)) xs h = All-remove_call P r.node xs h

pub keep_last :
    (q : ℕ → Bool) (done : List Node) (n : ℕ) (c : Fcall) (rest : List Node)
    → keep q (done ++ (n, c) ∷ []) ++ rest ≡ keep q done ++ (if q n then rest else (n, c) ∷ rest)
unfolding keep
keep_last q done n c rest =
    ap (λ l. l ++ rest) (keep-append q done ((n, c) ∷ []))
    ∙ append_assoc (keep q done) (keep q ((n, c) ∷ [])) rest
    ∙ elim (Bool-cases (q n)) [ inl out ↦ rw out | inr stays ↦ rw stays ]

pub keep-without :
    (p : ℕ → Bool) (o : Option Split) (xs : List Node)
    → keep p (without o xs) ≡ keep (λ m. is_found o m || p m) xs
keep-without p none xs = refl
keep-without p (some (before, r, after)) xs = keep-remove_call p r.node xs

or_false : (b : Bool) → (b || false) ≡ b
or_false true = refl
or_false false = refl

pub pending_old :
    (ts : List Fres) (n : ℕ) (c : Fcall) (cs : List Fcall) (m : ℕ)
    → m < n
    → pending (ts ++ record_of n c ∷ []) cs m ≡ pending ts cs m
unfolding pending
pending_old ts n c cs m l =
    let e : (m == n) ≡ false = ground (arith, l) in
    pending-append ts (record_of n c ∷ []) cs m ∙ rw e (or_false (pending ts cs m))

pub pending_new :
    (ts : List Fres) (n : ℕ) (c : Fcall) (cs : List Fcall)
    → All (λ t. t.node < n) ts
    → pending (ts ++ record_of n c ∷ []) cs n ≡ freed_later c cs
unfolding pending
pending_new ts n c cs h =
    pending-append ts (record_of n c ∷ []) cs n
    ∙ rw (pending_below ts cs n h, ==_self n) (or_false (freed_later c cs))

drop_here :
    (n : ℕ) (c : Fcall) (cs : List Fcall) (done : List Node)
    → All (λ x. x.0 < n) done
    → remove_call n (done ++ numbered n (c ∷ cs)) ≡ done ++ numbered (n + 1) cs
unfolding numbered remove_call
drop_here n c cs done h =
    remove_call-append n done ((n, c) ∷ numbered (n + 1) cs)
    ∙ ap₂ (λ xs ys. xs ++ ys) (remove_call_below n done h)
        (rw (==_self n) (remove_call-numbered n (n + 1) cs (omega arith)))

-- The allocation and the deallocation are both taken off the list.
pub drop_both :
    (n : ℕ) (c : Fcall) (cs : List Fcall) (done : List Node) (table : List Fres) (o : Option Split)
    → All (λ x. x.0 < n) done
    → All (λ t. t.node < n) table
    → Found c table o
    → remove_call n (without o (done ++ numbered n (c ∷ cs)))
      ≡ without o done ++ numbered (n + 1) cs
drop_both n c cs done table none h k f = drop_here n c cs done h
drop_both n c cs done table (some (before, r, after)) h k f =
    let early : r.node < n =
      All-middle (λ t. t.node < n) before r after (subst (All (λ t. t.node < n)) f.0 k) in
    ap (remove_call n) (
      remove_call-append r.node done (numbered n (c ∷ cs))
      ∙ ap (λ ys. remove_call r.node done ++ ys) (remove_call-numbered r.node n (c ∷ cs) early))
    ∙ drop_here n c cs (remove_call r.node done) (All-remove_call _ r.node done h)

or_true : (b : Bool) → (b || true) ≡ true
or_true true = refl
or_true false = refl

pub step_free-plain :
    (n : ℕ) (c : Fcall) (o : Option Split) (s : Index)
    → step_free (n, c) o (some false) s
      ≡ some (record { calls = remove_call n (without o s.calls); table = others o s.table })
unfolding step_free
step_free-plain n c none s = refl
step_free-plain n c (some (before, r, after)) s = rw (or_true (r.ref_count == 1))

abbrev pub start : ℕ → List Node → List Fcall → List Fres → Index
start n done cs table = record { calls = done ++ numbered n cs; table = table }
