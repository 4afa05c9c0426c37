-- ===== src/Postproc/Select.antt =====
-- The filters by context, resource type, index and code address of src/rtrace-postproc/filter.c,
-- and the depth of backtraces.
pub mod Kept
pub mod Filters
pub mod InRange
use sp_rtrace.Prelude.{
  ℕ, zero, suc, ◌+◌, ◌-◌, ◌%◌, ◌^◌, Bool, true, false, List, [], ◌∷◌, Option, none, some, bit_and,
  ltb, leb, ◌==◌, ◌&&◌, ◌||◌, not, if◌then◌else◌, map, take, get_elem?,
}
use sp_rtrace.Proto.Memory.{Bytes}
use sp_rtrace.Binary.Data.{Fcall, Resource, Context, Mmap, Ftrace, Pinfo}
use sp_rtrace.Postproc.Leaks.{Node, numbered, remove_call, at}

-- A test that may read through a null pointer, on one call, and `rd_fcall_remove`.
abbrev pub remove_if : Option Bool → ℕ → List Node → Option (List Node)
remove_if none n calls = none
remove_if (some drop) n calls = some (if drop then remove_call n calls else calls)

abbrev pub and_calls : Option (List Node) → (List Node → Option (List Node)) → Option (List Node)
and_calls none go = none
and_calls (some calls) go = go calls

-- `dlist_foreach2` over the calls, with a function that removes some of them.
unfoldable pub remove_each : (Fcall → Option Bool) → List Node → List Node → Option (List Node)
remove_each drop [] calls = some calls
remove_each drop ((n, c) ∷ xs) calls = and_calls (remove_if (drop c) n calls) (remove_each drop xs)

unfoldable pub filter_calls : (Fcall → Option Bool) → List Fcall → Option (List Node)
filter_calls drop cs = let xs = numbered 0 cs in remove_each drop xs xs

-- `fcall_filter_context`
unfoldable pub drops_context : ℕ → Fcall → Bool
drops_context mask c =
    not (mask == 0) && bit_and c.context mask == 0 || mask == 0 && not (c.context == 0)

-- The bit of a resource type in the mask, for ids from 1 to 32: for others the shift of the source
-- is undefined.
unfoldable pub selects : ℕ → ℕ → Bool
selects mask id = not (bit_and (2 ^ (id - 1) % 2 ^ 32) mask == 0)

abbrev pub drops_type : ℕ → Option Resource → Bool
drops_type mask none = false
drops_type mask (some r) = not (selects mask r.id)

-- `fcall_filter_resource`
unfoldable pub drops_resource : ℕ → List Resource → Fcall → Bool
drops_resource mask rs c = drops_type mask (at rs c.res_type)

-- `context_filter_mask` and `resource_filter_mask` on the lists of records.
unfoldable pub contexts_left : ℕ → List Context → List Context
contexts_left mask [] = []
contexts_left mask (x ∷ xs) =
    let rest = contexts_left mask xs in if bit_and x.id mask == 0 then rest else x ∷ rest

unfoldable pub resources_left : ℕ → List Resource → List Resource
resources_left mask [] = []
resources_left mask (r ∷ rs) =
    let rest = resources_left mask rs in if selects mask r.id then r ∷ rest else rest

abbrev pub with_records {ℓ} : {A : Type ℓ} → A → Option (List Node) → Option (A × List Node)
with_records xs none = none
with_records xs (some calls) = some (xs, calls)

unfoldable pub filter_context : ℕ → List Context → List Fcall → Option (List Context × List Node)
filter_context mask xs cs =
    with_records (contexts_left mask xs) (filter_calls (λ c. some (drops_context mask c)) cs)

unfoldable pub filter_resource : ℕ → List Resource → List Fcall → Option (List Resource × List Node)
filter_resource mask rs cs =
    with_records (resources_left mask rs) (filter_calls (λ c. some (drops_resource mask rs c)) cs)

-- `fcall_filter_index`; `found` is whether `tfind` finds the index in the map of the file.
unfoldable pub drops_index : Bool → (ℕ → Bool) → Fcall → Bool
drops_index include found c = found c.index && not include || not (found c.index) && include

unfoldable pub filter_include : (ℕ → Bool) → List Fcall → Option (List Node)
filter_include found = filter_calls (λ c. some (drops_index true found c))

unfoldable pub filter_exclude : (ℕ → Bool) → List Fcall → Option (List Node)
filter_exclude found = filter_calls (λ c. some (drops_index false found c))

-- `filter_range_start` and `filter_range_size`, and what is asked of a module: whether `strstr`
-- finds the target in its name, and `rs_mmap_is_absolute`.
pub record Range : Type 0 where
  pub start : ℕ
  pub size : ℕ
  pub targets : Bytes → Bool
  pub absolute : Bytes → Bool

-- `mmap_lookup_filter_range_target`
abbrev pub lookup_target : Range → Mmap → ℕ × ℕ → ℕ × ℕ
lookup_target r m found =
    if r.targets m.module_name
    then (if r.absolute m.module_name then r.start else (r.start + m.from) % 2 ^ 64, r.size)
    else found

-- `dlist_foreach2_in`, until a start is found.
unfoldable pub lookup_range : Range → List Mmap → ℕ × ℕ → ℕ × ℕ
lookup_range r [] found = found
lookup_range r (m ∷ ms) found =
    let rest = lookup_range r ms (lookup_target r m found) in if found.0 == 0 then rest else found

unfoldable pub in_range : ℕ → ℕ → List ℕ → Bool
in_range start size [] = false
in_range start size (f ∷ fs) =
    leb start f && ltb f ((start + size) % 2 ^ 64) || in_range start size fs

abbrev pub drops_trace : ℕ → ℕ → Option Ftrace → Option Bool
drops_trace start size none = none
drops_trace start size (some t) = some (not (in_range start size t.frames))

abbrev pub trace_at : List Ftrace → Option ℕ → Option Ftrace
trace_at ts none = none
trace_at ts (some i) = get_elem? ts i

-- `fcall_filter_range`; a call without a backtrace is a null pointer.
unfoldable pub drops_range : ℕ → ℕ → List Ftrace → Fcall → Option Bool
drops_range start size ts c = drops_trace start size (trace_at ts c.trace)

-- Without a target only a warning is given.
unfoldable pub filter_call_address_range :
    Range → List Mmap → List Ftrace → List Fcall → Option (List Node)
filter_call_address_range r ms ts cs =
    let (start, size) = lookup_range r ms (0, 0) in
    if start == 0 then some (numbered 0 cs) else filter_calls (drops_range start size ts) cs

-- `trim_backtrace` on all backtraces, and the depth in the process information.
unfoldable pub trim_backtraces : ℕ → List Ftrace → List Ftrace
trim_backtraces depth [] = []
trim_backtraces depth (t ∷ ts) =
    record t { frames = take depth t.frames } ∷ trim_backtraces depth ts

unfoldable pub filter_trim_backtraces : ℕ → Pinfo → List Ftrace → Pinfo × List Ftrace
filter_trim_backtraces depth p ts =
    (record p { backtrace_depth = some depth }, trim_backtraces depth ts)

-- A single resource type is hidden.
unfoldable pub filter_update_resource_visibility : List Resource → List Resource
filter_update_resource_visibility [] = []
filter_update_resource_visibility (r ∷ []) = record r { hide = true; id = 1 } ∷ []
filter_update_resource_visibility (r ∷ s ∷ rs) = r ∷ s ∷ rs
