-- ===== src/Postproc/Blocks.antt =====
-- `filter_find_lowhigh_blocks` and `filter_sum_leaks` of src/rtrace-postproc/filter.c.
pub mod Range
use sp_rtrace.Prelude.{
  ℕ, ◌+◌, ◌-◌, ◌^◌, List, [], ◌∷◌, Option, none, some, ltb, ◌==◌, if◌then◌else◌, get_elem?,
}
use sp_rtrace.Binary.Data.{Fcall, Hinfo, Resource, modify}
use sp_rtrace.Postproc.Leaks.{type_alloc, at}

unfoldable pub lower : ℕ → Hinfo → Hinfo
lower id h = if ltb id h.lowest_block then record h { lowest_block = id } else h

unfoldable pub higher : ℕ → Hinfo → Hinfo
higher id h = if ltb h.highest_block id then record h { highest_block = id } else h

-- `fcall_find_lowhigh_blocks`
unfoldable pub find_block : Fcall → Hinfo → Hinfo
find_block c h = if c.type == type_alloc then higher c.res_id (lower c.res_id h) else h

unfoldable pub find_blocks : List Fcall → Hinfo → Hinfo
find_blocks [] h = h
find_blocks (c ∷ cs) h = find_blocks cs (find_block c h)

-- `(pointer_t)~0L`
abbrev pub highest_address : ℕ
highest_address = 2 ^ 64 - 1

-- `none` is trace data without heap information, which is a null pointer.
unfoldable pub filter_find_lowhigh_blocks : List Fcall → Option Hinfo → Option Hinfo
filter_find_lowhigh_blocks cs none = none
filter_find_lowhigh_blocks cs (some h) =
    some (find_blocks cs (record h { lowest_block = highest_address }))

-- `leak_data_t`
pub record Leak : Type 0 where
  pub count : ℕ
  pub total_size : ℕ

abbrev pub leak_of : Option Resource → ℕ
leak_of none = 0
leak_of (some r) = r.id - 1

abbrev pub add_leak : ℕ → Leak → Leak
add_leak size l = record { count = l.count + 1; total_size = l.total_size + size }

-- One call of `filter_sum_leaks`.
unfoldable pub filter_sum_leaks : List Resource → Fcall → List Leak → List Leak
filter_sum_leaks rs c leaks =
    if c.type == type_alloc
    then modify (add_leak c.res_size) leaks (leak_of (at rs c.res_type))
    else leaks
