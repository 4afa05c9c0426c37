-- ===== src/Tests/Select.antt =====
-- The filters on a short trace, and the cache of names on a few addresses.
use sp_rtrace.Prelude.{
  ℕ, ◌+◌, ◌↔◌, not, true, false, List, [], ◌∷◌, ◌≡◌, refl, some, none, map, All, length, arith,
  ◌==◌, Bool,
}
use sp_rtrace.Proto.Memory.{Bytes}
use sp_rtrace.Binary.Data.{Fcall, Resource, Mmap, Ftrace, hash_value}
use sp_rtrace.Postproc.Leaks.{Node, at}
use sp_rtrace.Postproc.Select.{filter_resource, filter_include, filter_exclude, Range}
use sp_rtrace.Postproc.Select.Kept.{remaining}
use sp_rtrace.Postproc.Select.Filters.{
  HasType, IsListed, wants, filter_resource-HasType, filter_include-filter_exclude,
}
use sp_rtrace.Resolve.NameCache.{owned, Slots, allocated, find_slot, namecache_get_data}
use sp_rtrace.Resolve.NameCache.Memo.{AreTrue, allocated-AreTrue, resolve_all, resolve_all-lookup}

abbrev types : List Resource
types =
    record { id = 1; type = b'm' ∷ []; desc = []; flags = 0; hide = false }
    ∷ record { id = 2; type = b'f' ∷ []; desc = []; flags = 0; hide = false }
    ∷ []

abbrev call : ℕ → ℕ → Fcall
call index type = record {
  index = index;
  type = 2;
  context = 0;
  timestamp = 0;
  name = [];
  res_type = some type;
  res_id = 64;
  res_size = 8;
  trace = some 0;
  args = none;
}

abbrev trace : List Fcall
trace = call 1 0 ∷ call 2 1 ∷ call 3 0 ∷ []

filter_resource-HasType_example :
    (left : List Resource) × (calls : List Node) × (filter_resource 2 types trace
      ≡ some (left, calls))
    × (calls ≡ remaining (λ c. not (wants 2 (at types c.res_type))) 0 trace)
    × All (λ x. HasType types left x.1) calls
    × ((r : Resource) → IsListed r left ↔ (IsListed r types × (wants 2 (some r) ≡ true)))
filter_resource-HasType_example =
    filter_resource-HasType 2 types trace
      ((omega arith, omega arith), ((omega arith, omega arith), tt))

filter_include-filter_exclude_example :
    (xs : List Node) × (ys : List Node) × (filter_include (λ i. i == 2) trace ≡ some xs)
    × (filter_exclude (λ i. i == 2) trace ≡ some ys)
    × All (λ x. (x.1.index == 2) ≡ true) xs
    × All (λ y. (y.1.index == 2) ≡ false) ys
    × (length xs + length ys ≡ length trace)
filter_include-filter_exclude_example = filter_include-filter_exclude (λ i. i == 2) trace

abbrev traces : List Ftrace
traces = record { ref_count = 3; frames = 4100 ∷ 9000 ∷ []; calls = 0 ∷ 1 ∷ 2 ∷ [] } ∷ []

abbrev mmaps : List Mmap
mmaps =
    record { from = 4096; to = 8192; module_name = b'a' ∷ [] }
    ∷ record { from = 8192; to = 12288; module_name = b'b' ∷ [] }
    ∷ []

abbrev range : Range
range = record { start = 8; size = 1000; targets = is_b; absolute = λ name. false }
  where
    is_b : Bytes → Bool
    is_b [] = false
    is_b (c ∷ s) = c == b'b'

resolve_all-lookup_example :
    (after : Slots) × (resolve_all (λ a. a ∷ []) (4096 ∷ 4100 ∷ 4096 ∷ []) allocated
      ≡ some (map (λ a. owned (a ∷ [])) (4096 ∷ 4100 ∷ 4096 ∷ []), after))
    × AreTrue (λ a. a ∷ []) after
resolve_all-lookup_example =
    resolve_all-lookup (λ a. a ∷ []) (4096 ∷ 4100 ∷ 4096 ∷ []) allocated
      (allocated-AreTrue (λ a. a ∷ []))
      (
        (λ e. absurd (omega (arith, e))),
        ((λ e. absurd (omega (arith, e))), ((λ e. absurd (omega (arith, e))), tt)),
      )

-- The null address is found in a fresh cache, without a name.
null_address_test : namecache_get_data 0 allocated ≡ some 0
unfolding namecache_get_data find_slot hash_value
null_address_test = refl
