-- ===== src/Prelude/Bits.antt =====
-- A mask of one bit as arithmetic, for `bit_and` at variables.
use Prim.Native.Nat.{
  ℕ, zero, suc, ◌+◌, ◌*◌, ◌/◌, ◌%◌, ◌^◌, ◌≤◌, ◌<◌, min, bit_and, digits, bit_and-bitwise,
}
use mathlib.Core.Path.{◌≡◌, refl, sym, ap, ◌∙◌, subst}
use mathlib.Core.Logic.{inl, inr}
use mathlib.Core.Bool.{Bool, true, not, ◌&&◌}
use sp_rtrace.Prelude.Tests.{◌==◌, Bool-cases, both_true}
use native.Mathlib.Omega.{arith}
use native.Mathlib.Nat.{mul_assoc}

-- The bit `k` of a number.
unfoldable pub bit : ℕ → ℕ → ℕ
bit zero n = n % 2
bit (suc k) n = bit k (n / 2)

-- What the native `bit_and` stands for, with fuel.
abbrev conjoined : ℕ → ℕ → ℕ → ℕ
conjoined fuel x y = digits (λ rest. zero) min fuel x y

conjoined_none : (fuel y : ℕ) → conjoined fuel 0 y ≡ 0
conjoined_none zero y = refl
conjoined_none (suc fuel) y = refl

conjoined_no_mask : (fuel x : ℕ) → conjoined fuel x 0 ≡ 0
conjoined_no_mask zero zero = refl
conjoined_no_mask zero (suc x) = refl
conjoined_no_mask (suc fuel) zero = refl
conjoined_no_mask (suc fuel) (suc x) =
    let rest = conjoined_no_mask fuel (suc x / 2) in omega (arith, rest)

-- More fuel than digits changes nothing.
conjoined_enough :
    (x y low high : ℕ) → x ≤ low → low ≤ high → conjoined low x y ≡ conjoined high x y
conjoined_enough zero y low high h k = conjoined_none low y ∙ sym (conjoined_none high y)
conjoined_enough (suc x) y zero high h k = absurd (omega (arith, h))
conjoined_enough (suc x) y (suc low) zero h k = absurd (omega (arith, k))
conjoined_enough (suc x) y (suc low) (suc high) h k =
    let rest =
      conjoined_enough (suc x / 2) (y / 2) low high (omega (arith, h)) (omega (arith, k)) in
    omega (arith, rest)

bit_and-one_less :
    (x y : ℕ) → bit_and (suc x) y ≡ conjoined x (suc x / 2) (y / 2) * 2 + min (suc x % 2) (y % 2)
bit_and-one_less x y = bit_and-bitwise (suc x) y

bit_and_halves : (x y : ℕ) → bit_and x y ≡ bit_and (x / 2) (y / 2) * 2 + min (x % 2) (y % 2)
bit_and_halves zero y =
    let whole = bit_and-bitwise 0 y in
    let part = bit_and-bitwise 0 (y / 2) in omega (arith, whole, part)
bit_and_halves (suc x) y =
    let part = bit_and-bitwise (suc x / 2) (y / 2) in
    let same = conjoined_enough (suc x / 2) (y / 2) (suc x / 2) x (omega arith) (omega arith) in
    let whole = bit_and-one_less x y in omega (arith, whole, part, same)

-- 2 ^ k by doubling.
unfoldable pub power : ℕ → ℕ
power zero = 1
power (suc k) = power k * 2

pub bit_and-bit : (k m : ℕ) → bit_and (power k) m ≡ bit k m * power k
unfolding bit power
bit_and-bit zero m = omega (arith, bit_and_halves 1 m, bit_and-bitwise 0 (m / 2))
bit_and-bit (suc k) m =
    let p = power k in
    let half : p * 2 / 2 ≡ p = omega arith in
    omega (
      arith,
      bit_and_halves (p * 2) m,
      ap (λ x. bit_and x (m / 2)) half ∙ bit_and-bit k (m / 2),
      mul_assoc (bit k (m / 2)) p 2,
    )

pub bit-bit_and : (k m : ℕ) → bit_and m (power k) ≡ bit k m * power k
unfolding bit power
bit-bit_and zero m =
    omega (arith, bit_and_halves m 1, bit_and-bitwise (m / 2) 0, conjoined_no_mask (m / 2) (m / 2))
bit-bit_and (suc k) m =
    let p = power k in
    let half : p * 2 / 2 ≡ p = omega arith in
    omega (
      arith,
      bit_and_halves m (p * 2),
      ap (λ x. bit_and (m / 2) x) half ∙ bit-bit_and k (m / 2),
      mul_assoc (bit k (m / 2)) p 2,
    )

-- Two functions agree below a bound, by evaluation.
agree_below : (ℕ → ℕ) → (ℕ → ℕ) → ℕ → Bool
agree_below f g zero = true
agree_below f g (suc n) = f n == g n && agree_below f g n

agrees : (f g : ℕ → ℕ) (n : ℕ) → agree_below f g n ≡ true → (i : ℕ) → i < n → f i ≡ g i
unfolding agree_below
agrees f g zero h i l = absurd (omega arith)
agrees f g (suc n) h i l =
    let (here, below) = both_true (f n == g n) (agree_below f g n) h in
    elim (Bool-cases (i == n)) [
      | inl e ↦
          (let same : n ≡ i = ground (arith, e) in
            subst (λ j. f j ≡ g j) same (ground (arith, here)))
      | inr e ↦ agrees f g n below i (ground (arith, e, l))
    ]

-- A word with the one bit `k`.
pub word_power : (k : ℕ) → k < 32 → 2 ^ k % 2 ^ 32 ≡ power k
unfolding agree_below power
word_power = agrees (λ k. 2 ^ k % 2 ^ 32) power 32 refl

bit-lt : (k m : ℕ) → bit k m < 2
unfolding bit
bit-lt zero m = omega arith
bit-lt (suc k) m = bit-lt k (m / 2)

power_positive : (k : ℕ) → 0 < power k
unfolding power
power_positive zero = omega arith
power_positive (suc k) = omega (arith, power_positive k)

scaled : (b p n : ℕ) → b < 2 → 0 < p → n ≡ b * p → not (n == 0) ≡ (b == 1)
scaled zero p n h l e = ground (arith, e)
scaled (suc zero) p n h l e = ground (arith, e, l)
scaled (suc (suc b)) p n h l e = absurd (omega (arith, h))

-- The test of one bit with a mask.
pub bit_and-test : (k m : ℕ) → not (bit_and (power k) m == 0) ≡ (bit k m == 1)
bit_and-test k m =
    scaled (bit k m) (power k) (bit_and (power k) m) (bit-lt k m) (power_positive k)
      (bit_and-bit k m)

pub test-bit_and : (k m : ℕ) → not (bit_and m (power k) == 0) ≡ (bit k m == 1)
test-bit_and k m =
    scaled (bit k m) (power k) (bit_and m (power k)) (bit-lt k m) (power_positive k)
      (bit-bit_and k m)
