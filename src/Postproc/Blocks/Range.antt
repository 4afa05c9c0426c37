-- ===== src/Postproc/Blocks/Range.antt =====
-- The range that the allocated blocks span.
use sp_rtrace.Prelude.{
  ℕ, true, false, List, [], ◌∷◌, ◌≡◌, refl, ap, ap₂, ◌∙◌, some, min, max, ◌==◌, if◌then◌else◌,
  Bool-cases, inl, inr, arith,
}
use sp_rtrace.Binary.Data.{Fcall, Hinfo}
use sp_rtrace.Postproc.Leaks.{type_alloc}
use sp_rtrace.Postproc.Blocks.{
  lower, higher, find_block, find_blocks, highest_address, filter_find_lowhigh_blocks,
}

-- The blocks of the allocations.
unfoldable pub blocks : List Fcall → List ℕ
blocks [] = []
blocks (c ∷ cs) = if c.type == type_alloc then c.res_id ∷ blocks cs else blocks cs

unfoldable pub least : ℕ → List ℕ → ℕ
least low [] = low
least low (b ∷ bs) = min b (least low bs)

unfoldable pub greatest : ℕ → List ℕ → ℕ
greatest high [] = high
greatest high (b ∷ bs) = max b (greatest high bs)

least-min : (b low : ℕ) (bs : List ℕ) → least (min b low) bs ≡ min b (least low bs)
unfolding least
least-min b low [] = refl
least-min b low (c ∷ bs) = omega (arith, least-min b low bs)

greatest-max : (b high : ℕ) (bs : List ℕ) → greatest (max b high) bs ≡ max b (greatest high bs)
unfolding greatest
greatest-max b high [] = refl
greatest-max b high (c ∷ bs) = omega (arith, greatest-max b high bs)

abbrev with_range : Hinfo → ℕ → ℕ → Hinfo
with_range h low high = record h { lowest_block = low; highest_block = high }

find_block-alloc :
    (c : Fcall) (h : Hinfo)
    → (c.type == type_alloc) ≡ true
    → find_block c h ≡ with_range h (min c.res_id h.lowest_block) (max c.res_id h.highest_block)
unfolding find_block lower higher
find_block-alloc c h a = ground (arith, a)

find_block_other : (c : Fcall) (h : Hinfo) → (c.type == type_alloc) ≡ false → find_block c h ≡ h
unfolding find_block
find_block_other c h e = rw e

find_blocks-range :
    (cs : List Fcall) (h : Hinfo)
    → find_blocks cs h
      ≡ with_range h (least h.lowest_block (blocks cs)) (greatest h.highest_block (blocks cs))
unfolding find_blocks blocks least greatest
find_blocks-range [] h = refl
find_blocks-range (c ∷ cs) h = elim (Bool-cases (c.type == type_alloc)) [
  | inl a ↦
      (let l = least-min c.res_id h.lowest_block (blocks cs) in
        let u = greatest-max c.res_id h.highest_block (blocks cs) in
        ap (find_blocks cs) (find_block-alloc c h a)
        ∙ find_blocks-range cs
            (with_range h (min c.res_id h.lowest_block) (max c.res_id h.highest_block))
        ∙ rw a (ap₂ (with_range h) l u))
  | inr other ↦ rw (find_block_other c h other, other) (find_blocks-range cs h)
]

-- Where there is heap information, `filter_find_lowhigh_blocks` sets the lowest block to the least
-- identifier of all allocations, or to the highest address without any, raises the highest block
-- to the greatest one, and changes no other field.
pub filter_find_lowhigh_blocks-range :
    (cs : List Fcall) (h : Hinfo)
    → filter_find_lowhigh_blocks cs (some h)
      ≡ some (record h {
        lowest_block = least highest_address (blocks cs);
        highest_block = greatest h.highest_block (blocks cs);
      })
unfolding filter_find_lowhigh_blocks
filter_find_lowhigh_blocks-range cs h =
    ap some (find_blocks-range cs (record h { lowest_block = highest_address }))
