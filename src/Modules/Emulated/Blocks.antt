-- ===== src/Modules/Emulated/Blocks.antt =====
-- The blocks of the internal heap that are in use: they lie apart, and their sizes stand in front
-- of them.
use sp_rtrace.Prelude.{
  ℕ, ◌+◌, ◌-◌, ◌%◌, ◌≤◌, ◌<◌, Bool, true, false, List, [], ◌∷◌, ◌==◌, ◌≡◌, refl, ap, ◌&&◌, ◌||◌,
  if◌then◌else◌, arith, Bool-cases, inl, inr, All,
}
use sp_rtrace.Proto.Memory.{Mem}
use sp_rtrace.Modules.Emulated.{Emulated, read_int}
use sp_rtrace.Modules.Emulated.Ready.{top, IsReady}

-- A pointer and the size that was asked for.
abbrev pub Block : Type 0
Block = ℕ × ℕ

-- The last block first: each one is aligned and ends below the int in front of the one behind it,
-- the last one at `bound` at most.
abbrev pub Stack : ℕ → ℕ → List Block → Type 0
Stack heap bound [] = Unit
Stack heap bound ((p, n) ∷ rest) =
    (heap + 4 ≤ p) × (p % 8 ≡ 0) × (p + n ≤ bound) × Stack heap (p - 4) rest

unfoldable pub without : ℕ → List Block → List Block
without ptr [] = []
without ptr ((p, n) ∷ live) =
    let rest = without ptr live in if p == ptr then rest else (p, n) ∷ rest

unfoldable pub is_block : ℕ → ℕ → List Block → Bool
is_block ptr n [] = false
is_block ptr n ((p, m) ∷ live) = p == ptr && m == n || is_block ptr n live

abbrev pub IsSized : Mem → Block → Type 0
IsSized m (p, n) = read_int m (p - 4) ≡ n + 4

pub record IsHeap (heap : ℕ) (live : List Block) (s : Emulated) : Type 0 where
  pub ready : IsReady heap s
  pub stack : Stack heap (top s) live
  pub below : Stack heap s.tail (without (s.tail + 4) live)
  pub sized : All (IsSized s.memory) live

pub Stack-mono : (heap b c : ℕ) (live : List Block) → b ≤ c → Stack heap b live → Stack heap c live
Stack-mono heap b c [] h s = tt
Stack-mono heap b c ((p, n) ∷ live) h s = (s.0, s.1, omega (arith, s.2), s.3)

pub Stack-without :
    (heap b ptr : ℕ) (live : List Block) → Stack heap b live → Stack heap b (without ptr live)
unfolding without
Stack-without heap b ptr [] s = tt
Stack-without heap b ptr ((p, n) ∷ live) s =
    let rest = Stack-without heap (p - 4) ptr live s.3 in
    elim (Bool-cases (p == ptr)) [
      | inl out ↦ rw out (Stack-mono heap (p - 4) b (without ptr live) (omega (arith, s.2)) rest)
      | inr stays ↦ rw stays (s.0, s.1, s.2, rest)
    ]

pub without_comm :
    (a b : ℕ) (live : List Block) → without a (without b live) ≡ without b (without a live)
unfolding without
without_comm a b [] = refl
without_comm a b ((p, n) ∷ live) = elim (Bool-cases (p == a)) [
  | inl x ↦ elim (Bool-cases (p == b)) [
    | inl y ↦ rw (x, y) (without_comm a b live)
    | inr y ↦ rw (x, y, x) (without_comm a b live)
  ]
  | inr x ↦ elim (Bool-cases (p == b)) [
    | inl y ↦ rw (x, y) (without_comm a b live)
    | inr y ↦ rw (x, y, x) (ap (λ l. (p, n) ∷ l) (without_comm a b live))
  ]
]

pub All-without :
    (P : Block → Type 0) (ptr : ℕ) (live : List Block) → All P live → All P (without ptr live)
unfolding without
All-without P ptr [] a = tt
All-without P ptr ((p, n) ∷ live) a = elim (Bool-cases (p == ptr)) [
  | inl out ↦ rw out (All-without P ptr live a.1)
  | inr stays ↦ rw stays (a.0, All-without P ptr live a.1)
]

-- Sizes below a bound are not touched by what happens above it.
pub IsSized-kept :
    (heap b : ℕ) (m m' : Mem) (live : List Block)
    → ((i : ℕ) → i < b → m' i ≡ m i)
    → Stack heap b live
    → All (IsSized m) live
    → All (IsSized m') live
unfolding read_int
IsSized-kept heap b m m' [] same s a = tt
IsSized-kept heap b m m' ((p, n) ∷ live) same s a = (
  ground (arith, a.0, s.0, s.2, same (p - 4), same (p - 4 + 1), same (p - 4 + 2), same (p - 4 + 3)),
  IsSized-kept heap (p - 4) m m' live (λ i h. same i (omega (arith, s.2))) s.3 a.1,
)

-- A block of the stack ends at the bound at most.
pub block_bounds :
    (heap b p n : ℕ) (live : List Block)
    → Stack heap b live
    → is_block p n live ≡ true
    → (heap + 4 ≤ p) × (p % 8 ≡ 0) × (p + n ≤ b)
unfolding is_block
block_bounds heap b p n [] s h = cc
block_bounds heap b p n ((q, k) ∷ live) s h = elim (Bool-cases (q == p && k == n)) [
  | inl here ↦ ground (arith, here, s.0, s.1, s.2)
  | inr there ↦
      (let (low, even, high) = block_bounds heap (q - 4) p n live s.3 (ground (arith, there, h)) in
        (low, even, omega (arith, high, s.2)))
]

pub is_block-without :
    (ptr p n : ℕ) (live : List Block)
    → (p == ptr) ≡ false
    → is_block p n live ≡ true
    → is_block p n (without ptr live) ≡ true
unfolding is_block without
is_block-without ptr p n [] o h = h
is_block-without ptr p n ((q, k) ∷ live) o h = ground (arith, is_block-without ptr p n live)
