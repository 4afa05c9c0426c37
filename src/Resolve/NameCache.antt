-- ===== src/Resolve/NameCache.antt =====
-- The cache of resolved names, src/rtrace-resolve/namecache.c.
pub mod Memo
use sp_rtrace.Prelude.{
  ℕ, zero, suc, ◌+◌, ◌-◌, ◌*◌, ◌%◌, ◌^◌, Bool, true, false, List, [], ◌∷◌, Option, none, some, ltb,
  leb, ◌==◌, ◌&&◌, if◌then◌else◌,
}
use sp_rtrace.Proto.Memory.{Bytes}
use sp_rtrace.Binary.Data.{hash_value}

-- The pointer to a name: null, to a name that the cache owns, or to one that it has freed.
pub data Name : Type 0 where
  null : Name
  owned : Bytes → Name
  dangling : Bytes → Name

-- namecache_rec_t
pub record Slot : Type 0 where
  pub addr : ℕ
  pub name : Name
  pub hits : ℕ
  pub stamp : ℕ

abbrev pub slot_count : ℕ
slot_count = 5

abbrev pub cache_total_size : ℕ
cache_total_size = 2 ^ 16 + slot_count

-- `access_counter`, which never changes.
abbrev pub access_counter : ℕ
access_counter = 1

-- The array.
abbrev pub Slots : Type 0
Slots = ℕ → Slot

-- `namecache_alloc`
abbrev pub allocated : Slots
allocated i = record { addr = 0; name = null; hits = 0; stamp = 0 }

-- The same loop as in the hash of the post-processor.
abbrev pub calc_hash : ℕ → ℕ
calc_hash addr = hash_value 22 0 addr

-- The first of `n` slots from `i` on that has the address.
unfoldable pub find_slot : ℕ → ℕ → ℕ → Slots → Option ℕ
find_slot zero i addr cache = none
find_slot (suc n) i addr cache =
    let rest = find_slot n (i + 1) addr cache in if (cache i).addr == addr then some i else rest

-- The place of the record that is returned.
unfoldable pub namecache_get_data : ℕ → Slots → Option ℕ
namecache_get_data addr cache = find_slot slot_count (calc_hash addr) addr cache

-- An unsigned difference and product.
abbrev pub age : Slot → ℕ
age s = (access_counter + 2 ^ 32 - s.stamp) % 2 ^ 32

abbrev pub hits_less : Slot → Slot → Bool
hits_less rec freerec = ltb (rec.hits * age freerec % 2 ^ 32) (freerec.hits * age rec % 2 ^ 32)

-- The slot to replace, with `n` rounds left.
unfoldable pub choose_slot : ℕ → ℕ → ℕ → Slots → ℕ
choose_slot zero rec freerec cache = freerec
choose_slot (suc n) rec freerec cache =
    let next = if hits_less (cache rec) (cache freerec) then rec else freerec in
    let rest = choose_slot n (rec + 1) next cache in
    if (cache freerec).hits == 0 then freerec else rest

abbrev pub set_slot : ℕ → Slot → Slots → Slots
set_slot i s cache j = if j == i then s else cache j

-- Whether `if (name) free(name)` is a double free.
abbrev pub is_freed : Name → Bool
is_freed null = false
is_freed (owned s) = false
is_freed (dangling s) = true

abbrev pub store_name : ℕ → ℕ → Bytes → Slots → Option Slots
store_name i address name cache =
    if is_freed (cache i).name
    then none
    else some (
        set_slot i (record { addr = address; name = owned name; hits = 0; stamp = access_counter })
          cache)

-- `none` is a double free.
unfoldable pub namecache_add : ℕ → Bytes → Slots → Option Slots
namecache_add address name cache =
    let i = calc_hash address in store_name (choose_slot slot_count i i cache) address name cache

-- The name is freed, and the pointer to it is kept.
abbrev pub after_free : Name → Name
after_free null = null
after_free (owned s) = dangling s
after_free (dangling s) = dangling s

abbrev pub remove_slot : ℕ → ℕ → ℕ → Slots → Option Slots
remove_slot i start end cache =
    if leb start (cache i).addr && leb (cache i).addr end
    then if is_freed (cache i).name
      then none
      else some (
          set_slot i (record (cache i) { addr = 0; name = after_free (cache i).name; stamp = 0 })
            cache)
    else some cache

abbrev pub next_slot : Option Slots → (Slots → Option Slots) → Option Slots
next_slot none go = none
next_slot (some cache) go = go cache

-- The first `n` slots.
unfoldable pub remove_slots : ℕ → ℕ → ℕ → Slots → Option Slots
remove_slots zero start end cache = some cache
remove_slots (suc n) start end cache =
    next_slot (remove_slots n start end cache) (remove_slot n start end)

unfoldable pub namecache_remove_region : ℕ → ℕ → Slots → Option Slots
namecache_remove_region start end = remove_slots cache_total_size start end
