-- ===== src/Resolve/Mmaps/Compared.antt =====
-- The order in which `mmap_compare` puts mappings that do not overlap.
use sp_rtrace.Prelude.{
  ℕ, ◌+◌, ◌-◌, ◌%◌, ◌^◌, ◌≤◌, ◌<◌, true, false, ltb, leb, ◌==◌, ◌&&◌, ◌≡◌, refl, ap, sym, ◌∙◌, ◌⊎◌,
  inl, inr, arith, Bool-cases, ltb→lt,
}
use sp_rtrace.Resolve.SortedArray.{less, same, greater, is_less, IsAligned, IsSplit}
use sp_rtrace.Resolve.Mmaps.{RsMmap, mmap_compare}

-- A mapping below 2 ^ 63 that is not empty.
pub record IsMapping (m : RsMmap) : Type 0 where
  pub proper : m.from < m.to
  pub low : m.to < 2 ^ 63

-- One mapping ends where the other begins, or before.
pub record Precedes (a b : RsMmap) : Type 0 where
  pub former : IsMapping a
  pub latter : IsMapping b
  pub apart : a.to ≤ b.from

-- `mmap_compare` takes the end for a part of the mapping.
abbrev pub Covers : ℕ → RsMmap → Type 0
Covers addr m = (m.from ≤ addr) × (addr ≤ m.to)

pub Precedes-trans : (a b c : RsMmap) → Precedes a b → Precedes b c → Precedes a c
Precedes-trans a b c p q = record {
  former = p.former;
  latter = q.latter;
  apart = (let e = p.apart in let f = q.apart in let g = q.former.proper in omega (arith, e, f, g));
}

-- What `mmap_compare` says of the start of `a`.
module _ (a b : RsMmap) (m : IsMapping b) (low : a.from < 2 ^ 63) where
  below-less : a.from < b.from → mmap_compare a b ≡ less
  unfolding mmap_compare
  below-less h =
      let p = m.proper in
      let q = m.low in
      let d = (a.from + 2 ^ 64 - b.from) % 2 ^ 64 in
      let outside : (leb b.from a.from && leb a.from b.to) ≡ false = ground (arith, h) in
      let differs : (d == 0) ≡ false = ground (arith, h, p, q, low) in
      let negative : ltb d (2 ^ 63) ≡ false = ground (arith, h, p, q, low) in
      rw (outside, differs, negative) refl

  pub covered-same : Covers a.from b → mmap_compare a b ≡ same
  unfolding mmap_compare
  covered-same (h, k) =
      let inside : (leb b.from a.from && leb a.from b.to) ≡ true = ground (arith, h, k) in
      rw inside refl

  above-greater : b.to < a.from → mmap_compare a b ≡ greater
  unfolding mmap_compare
  above-greater h =
      let p = m.proper in
      let q = m.low in
      let d = (a.from + 2 ^ 64 - b.from) % 2 ^ 64 in
      let outside : (leb b.from a.from && leb a.from b.to) ≡ false = ground (arith, h) in
      let differs : (d == 0) ≡ false = ground (arith, h, p, q, low) in
      let positive : ltb d (2 ^ 63) ≡ true = ground (arith, h, p, q, low) in
      rw (outside, differs, positive) refl

  sides : (a.from < b.from) ⊎ (Covers a.from b ⊎ (b.to < a.from))
  sides = elim (Bool-cases (ltb a.from b.from)) [
    | inl below ↦ inl (ltb→lt _ _ below)
    | inr not_below ↦ elim (Bool-cases (ltb b.to a.from)) [
      | inl above ↦ inr (inr (ltb→lt _ _ above))
      | inr not_above ↦ inr (inl (ground (arith, not_below), ground (arith, not_above)))
    ]
  ]

  less-below : mmap_compare a b ≡ less → a.from < b.from
  less-below e = elim sides [
    | inl below ↦ below
    | inr (inl covered) ↦ absurd (let k = sym (covered-same covered) ∙ e in cc)
    | inr (inr above) ↦ absurd (let k = sym (above-greater above) ∙ e in cc)
  ]

  pub same-covered : mmap_compare a b ≡ same → Covers a.from b
  same-covered e = elim sides [
    | inl below ↦ absurd (let k = sym (below-less below) ∙ e in cc)
    | inr (inl covered) ↦ covered
    | inr (inr above) ↦ absurd (let k = sym (above-greater above) ∙ e in cc)
  ]

  greater-above : mmap_compare a b ≡ greater → b.to < a.from
  greater-above e = elim sides [
    | inl below ↦ absurd (let k = sym (below-less below) ∙ e in cc)
    | inr (inl covered) ↦ absurd (let k = sym (covered-same covered) ∙ e in cc)
    | inr (inr above) ↦ above
  ]

pub mmap_compare-IsAligned : (a : RsMmap) → a.from < 2 ^ 63 → IsAligned mmap_compare Precedes a
mmap_compare-IsAligned a low = record {
  less_on = λ x y p e k.
      let h = less-below a x p.former low e in
      let c = same-covered a y p.latter low k in
      let (l, u) = c in
      let f = p.apart in let g = p.former.proper in absurd (omega (arith, h, l, f, g));
  greater_on = λ x y p e k.
      let h = greater-above a y p.latter low e in
      let c = same-covered a x p.former low k in
      let (l, u) = c in
      let f = p.apart in let g = p.latter.proper in absurd (omega (arith, h, u, f, g));
}

-- Neither lies in the other.
abbrev pub Apart : RsMmap → RsMmap → Type 0
Apart a b = Precedes a b ⊎ Precedes b a

pub IsSplit-Apart : (a x : RsMmap) → Apart a x → IsSplit mmap_compare Precedes a x
IsSplit-Apart a x (inl p) =
    ((λ e. p), λ e. absurd (let k : true ≡ false = sym (below_of p) ∙ e in cc))
  where
    below_of : Precedes a x → is_less (mmap_compare a x) ≡ true
    below_of p =
        let f = p.former.proper in
        let g = p.apart in
        let low = p.former.low in
        ap is_less (below-less a x p.latter (omega (arith, f, low)) (omega (arith, f, g)))
IsSplit-Apart a x (inr p) =
    ((λ e. absurd (let k : true ≡ false = sym e ∙ not_below p in cc)), λ e. p)
  where
    not_below : Precedes x a → is_less (mmap_compare a x) ≡ false
    not_below p =
        let f = p.latter.proper in
        let g = p.apart in
        let low = p.latter.low in
        let h = p.former.proper in
        elim (sides a x p.former (omega (arith, f, low))) [
          | inl below ↦ absurd (omega (arith, below, g, h))
          | inr (inl covered) ↦
              ap is_less (covered-same a x p.former (omega (arith, f, low)) covered)
          | inr (inr above) ↦ ap is_less (above-greater a x p.former (omega (arith, f, low)) above)
        ]
