-- ===== src/Tracer/Filter.antt =====
-- The event filter of src/library/sp_rtrace_filter.c, which decides whether a call gets a
-- backtrace. An int is its bit pattern, below 2 ^ 32.
use sp_rtrace.Prelude.{
  ℕ, ◌^◌, ◌-◌, Bool, true, false, List, [], ◌∷◌, Option, none, some, bit_and, ◌==◌, if◌then◌else◌,
  get_elem?,
}

-- `size_set` is the array of sizes, its end mark included, or a null pointer.
pub record SizeFilter : Type 0 where
  pub type : ℕ
  pub size_set : Option (List ℕ)

abbrev pub size_undefined : ℕ
size_undefined = 2 ^ 32 - 1

abbrev pub filter_type_none : ℕ
filter_type_none = 0

abbrev pub filter_type_alloc : ℕ
filter_type_alloc = 1

abbrev pub filter_type_free : ℕ
filter_type_free = 2

-- `types[]`, indexed by the type of the call: undefined, free, alloc.
abbrev pub filter_types : List ℕ
filter_types = filter_type_none ∷ filter_type_free ∷ filter_type_alloc ∷ []

-- The loop over `size_set`; `none` is a read past its end.
unfoldable pub match_size : List ℕ → ℕ → Option Bool
match_size [] size = none
match_size (p ∷ ps) size =
    let rest = match_size ps size in
    if p == size_undefined then some false else if size == p then some true else rest

match_sizes : Option (List ℕ) → ℕ → Option Bool
match_sizes none size = some true
match_sizes (some sizes) size = match_size sizes size

-- `none` is a call type outside `types[]`.
unfoldable pub validate : SizeFilter → ℕ → ℕ → Option Bool
unfolding match_sizes
validate f type size = elim (get_elem? filter_types type) [
  | none ↦ none
  | some t ↦ if bit_and t f.type == 0 then some false else match_sizes f.size_set size
]
