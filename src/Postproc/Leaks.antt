-- ===== src/Postproc/Leaks.antt =====
-- `filter_leaks` of src/rtrace-postproc/filter.c: calls whose resource is freed later are removed.
pub mod Keys
pub mod Table
pub mod Pending
pub mod Keep
pub mod Nodes
pub mod Step
pub mod Result
use sp_rtrace.Prelude.{
  ℕ, ◌+◌, ◌-◌, ◌%◌, ◌^◌, Bool, true, false, List, [], ◌∷◌, ◌++◌, Option, none, some, bit_and, ◌==◌,
  ◌&&◌, ◌||◌, not, get_elem?, if◌then◌else◌,
}
use sp_rtrace.Binary.Data.{Fcall, Resource, hash_value}

abbrev pub type_free : ℕ
type_free = 1

abbrev pub type_alloc : ℕ
type_alloc = 2

-- A call in the list, with its place in it before any call was removed, which stands for its node.
abbrev pub Node : Type 0
Node = ℕ × Fcall

-- The record of a resource that is allocated: the call, and how often.
pub record Fres : Type 0 where
  pub node : ℕ
  pub call : Fcall
  pub ref_count : ℕ

-- The calls that are left, and the hash table's records in the order in which they were stored,
-- which is their order within each bucket.
pub record Index : Type 0 where
  pub calls : List Node
  pub table : List Fres

abbrev pub same_pointer : Option ℕ → Option ℕ → Bool
same_pointer none none = true
same_pointer (some i) (some j) = i == j
same_pointer _ _ = false

abbrev pub id_of : Option Resource → Option ℕ
id_of none = none
id_of (some r) = some r.id

-- The resource that a call points to.
abbrev pub at : List Resource → Option ℕ → Option Resource
at rs none = none
at rs (some i) = get_elem? rs i

abbrev pub same_id : Option ℕ → Option ℕ → Bool
same_id (some x) (some y) = x == y
same_id _ _ = false

-- A record between those in front of it and behind it.
abbrev pub Split : Type 0
Split = List Fres × Fres × List Fres

abbrev pub behind : Fres → Option Split → Option Split
behind t none = none
behind t (some (before, r, after)) = some (t ∷ before, r, after)

module _ (rs : List Resource) where
  -- Whether `res_compare` is 0.
  unfoldable pub same_res : Fcall → Fcall → Bool
  same_res a b =
      if same_pointer a.res_type b.res_type
      then a.res_id == b.res_id
      else same_id (id_of (at rs a.res_type)) (id_of (at rs b.res_type))

  abbrev pub hash_type : ℕ → Option ℕ → ℕ
  hash_type hash none = hash
  hash_type hash (some id) = hash_value 22 hash id

  unfoldable pub res_hash : Fcall → ℕ
  res_hash c = hash_type (hash_value 22 0 c.res_id) (id_of (at rs c.res_type))

  -- In the same one of the HASH_SIZE buckets, and equal.
  unfoldable pub collides : Fcall → Fcall → Bool
  collides a b = res_hash a % 2 ^ 16 == res_hash b % 2 ^ 16 && same_res a b

  -- `htable_find`: the first record of the call's resource, between the others.
  unfoldable pub find_res : Fcall → List Fres → Option Split
  find_res c [] = none
  find_res c (t ∷ ts) =
      let rest = behind t (find_res c ts) in if collides t.call c then some ([], t, ts) else rest

  -- SP_RTRACE_RESOURCE_REFCOUNT; a null pointer faults.
  abbrev pub has_flag : Option Resource → Option Bool
  has_flag none = none
  has_flag (some r) = some (not (bit_and r.flags 1 == 0))

  abbrev pub refcounted : Fcall → Option Bool
  refcounted c = has_flag (at rs c.res_type)

-- `rd_fcall_remove`, for the list of calls.
unfoldable pub remove_call : ℕ → List Node → List Node
remove_call n [] = []
remove_call n ((m, c) ∷ cs) = let rest = remove_call n cs in if m == n then rest else (m, c) ∷ rest

-- `htable_store` adds the new record behind the others, and drops an equal one.
unfoldable pub store_res : Fres → Option Split → List Fres → List Fres
store_res new none table = table ++ new ∷ []
store_res new (some (before, r, after)) table = (before ++ after) ++ new ∷ []

-- The branch of an allocation.
unfoldable pub step_alloc : Node → Option Split → Option Bool → Index → Option Index
step_alloc (n, c) none flag s =
    some
      (record s { table = store_res (record { node = n; call = c; ref_count = 1 }) none s.table })
step_alloc (n, c) (some found) none s = none
step_alloc (n, c) (some found) (some false) s = some (record s {
  table = store_res (record { node = n; call = c; ref_count = 1 }) (some found) s.table;
})
step_alloc (n, c) (some (before, r, after)) (some true) s = some (record {
  calls = remove_call n s.calls;
  table = before ++ record r { ref_count = r.ref_count + 1 } ∷ after;
})

-- Without the allocation that is freed, and without the deallocation.
abbrev pub freed : ℕ → Split → Index → Index
freed n (before, r, after) s = record {
  calls = remove_call n (remove_call r.node s.calls);
  table = before ++ after;
}

abbrev pub kept : ℕ → Split → Index → Index
kept n (before, r, after) s = record {
  calls = remove_call n s.calls;
  table = before ++ record r { ref_count = r.ref_count - 1 } ∷ after;
}

-- The branch of a deallocation. The flag is only read where references are left.
unfoldable pub step_free : Node → Option Split → Option Bool → Index → Option Index
step_free (n, c) none flag s = some (record s { calls = remove_call n s.calls })
step_free (n, c) (some (before, r, after)) none s =
    if r.ref_count == 1 then some (freed n (before, r, after) s) else none
step_free (n, c) (some (before, r, after)) (some flag) s =
    if r.ref_count == 1 || not flag
    then some (freed n (before, r, after) s)
    else some (kept n (before, r, after) s)

-- `fcall_remove_freed`
unfoldable pub fcall_remove_freed : List Resource → Node → Index → Option Index
fcall_remove_freed rs (n, c) s =
    if c.type == type_alloc
    then step_alloc (n, c) (find_res rs c s.table) (refcounted rs c) s
    else if c.type == type_free
    then step_free (n, c) (find_res rs c s.table) (refcounted rs c) s
    else some s

abbrev pub next : Option Index → (Index → Option Index) → Option Index
next none go = none
next (some s) go = go s

-- `dlist_foreach2` over the calls.
unfoldable pub foreach : List Resource → List Node → Index → Option Index
foreach rs [] s = some s
foreach rs (c ∷ cs) s = next (fcall_remove_freed rs c s) (foreach rs cs)

unfoldable pub numbered : ℕ → List Fcall → List Node
numbered n [] = []
numbered n (c ∷ cs) = (n, c) ∷ numbered (n + 1) cs

unfoldable pub filter_leaks : List Resource → List Fcall → Option Index
filter_leaks rs calls =
    let cs = numbered 0 calls in foreach rs cs (record { calls = cs; table = [] })
