-- ===== src/Proto/Memory.antt =====
-- Memory that the writers fill: a byte for every address, and what a run of stores does to it.
use native.Mathlib.Nat.{zero-add}
use sp_rtrace.Prelude.{
  ℕ, zero, suc, ◌+◌, ◌≤◌, ◌<◌, List, [], ◌∷◌, ◌++◌, ◌≡◌, refl, ap, ap₂, ◌∙◌, fun_ext, ◌⊎◌, arith,
  ◌==◌, if◌then◌else◌, length,
}

abbrev pub Bytes : Type 0
Bytes = List ℕ

abbrev pub Mem : Type 0
Mem = ℕ → ℕ

abbrev pub update : Mem → ℕ → ℕ → Mem
update m p b a = if a == p then b else m a

-- Consecutive bytes from address `p` on.
unfoldable pub store : Mem → ℕ → Bytes → Mem
store m p [] = m
store m p (b ∷ bs) = store (update m p b) (p + 1) bs

-- The `n` bytes at `p`.
unfoldable pub slice : Mem → ℕ → ℕ → Bytes
slice m p zero = []
slice m p (suc n) = m p ∷ slice m (p + 1) n

-- Addresses outside the stored run keep their byte.
pub store_outside :
    (m : Mem) (p : ℕ) (bs : Bytes) (a : ℕ) → (a < p) ⊎ (p + length bs ≤ a) → store m p bs a ≡ m a
unfolding store
store_outside m p [] a h = refl
store_outside m p (b ∷ bs) a h = ground (arith, store_outside (update m p b) (p + 1) bs a)

pub store-append :
    (m : Mem) (p : ℕ) (cs bs : Bytes)
    → store m p (cs ++ bs) ≡ store (store m p cs) (p + length cs) bs
unfolding store
store-append m p [] bs = ap (λ q. store m q bs) (omega arith)
store-append m p (a ∷ cs) bs =
    store-append (update m p a) (p + 1) cs bs
    ∙ ap (λ q. store (store (update m p a) (p + 1) cs) q bs) (omega arith)

-- A single byte below a run may be stored before or after it.
update-store :
    (m : Mem) (a b p : ℕ) (bs : Bytes)
    → a < p
    → update (store m p bs) a b ≡ store (update m a b) p bs
unfolding store
update-store m a b p [] h = refl
update-store m a b p (c ∷ bs) h =
    update-store (update m p c) a b (p + 1) bs (omega arith)
    ∙ ap (λ n. store n (p + 1) bs) (fun_ext λ i. ground arith)

-- Two runs that do not overlap may be stored in either order.
pub store_comm :
    (m : Mem) (p q : ℕ) (cs bs : Bytes)
    → p + length cs ≤ q
    → store (store m q bs) p cs ≡ store (store m p cs) q bs
unfolding store
store_comm m p q [] bs h = refl
store_comm m p q (a ∷ cs) bs h =
    ap (λ n. store n (p + 1) cs) (update-store m p a q bs (omega arith))
    ∙ store_comm (update m p a) (p + 1) q cs bs (omega arith)

pub slice-append : (m : Mem) (p a b : ℕ) → slice m p (a + b) ≡ slice m p a ++ slice m (p + a) b
unfolding slice
slice-append m p zero b = rw (zero-add b) (ap (λ q. slice m q b) (omega arith))
slice-append m p (suc a) b =
    let e : suc a + b ≡ suc (a + b) = omega arith in
    let f : p + suc a ≡ p + 1 + a = omega arith in
    rw (e, f) (ap (◌∷◌ (m p)) (slice-append m (p + 1) a b))

pub slice_congr :
    (m k : Mem) (p n : ℕ) → ((a : ℕ) → p ≤ a → a < p + n → m a ≡ k a) → slice m p n ≡ slice k p n
unfolding slice
slice_congr m k p zero h = refl
slice_congr m k p (suc n) h =
    ap₂ ◌∷◌ (h p (omega arith) (omega arith))
      (slice_congr m k (p + 1) n (λ a l u. h a (omega arith) (omega arith)))

pub slice-store : (m : Mem) (p : ℕ) (bs : Bytes) → slice (store m p bs) p (length bs) ≡ bs
unfolding store slice
slice-store m p [] = refl
slice-store m p (b ∷ bs) =
    ap₂ ◌∷◌ (store_outside (update m p b) (p + 1) bs p (omega arith) ∙ ground arith)
      (slice-store (update m p b) (p + 1) bs)
