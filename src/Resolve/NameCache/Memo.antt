-- ===== src/Resolve/NameCache/Memo.antt =====
-- The cache in front of the lookup of a symbol, `rs_resolve_address` of
-- src/rtrace-resolve/resolver.c.
use sp_rtrace.Prelude.{
  ℕ, zero, suc, ◌+◌, true, false, List, [], ◌∷◌, ◌≡◌, ◌≢◌, refl, sym, ap, ◌∙◌, subst, Option, none,
  some, ◌==◌, if◌then◌else◌, map, All, arith, Bool-cases, inl, inr,
}
use sp_rtrace.Proto.Memory.{Bytes}
use sp_rtrace.Resolve.NameCache.{
  Name, owned, Slot, Slots, slot_count, calc_hash, find_slot, namecache_get_data, choose_slot,
  set_slot, is_freed, store_name, namecache_add, allocated,
}

-- A slot that was never counted as hit, and that is empty or holds the name of its address.
pub record IsTrue (lookup : ℕ → Bytes) (s : Slot) : Type 0 where
  pub hits : s.hits ≡ 0
  pub named : s.addr ≢ 0 → s.name ≡ owned (lookup s.addr)
  pub live : is_freed s.name ≡ false

abbrev pub AreTrue : (ℕ → Bytes) → Slots → Type 0
AreTrue lookup cache = (i : ℕ) → IsTrue lookup (cache i)

choose_slot-first : (n i : ℕ) (cache : Slots) → (cache i).hits ≡ 0 → choose_slot n i i cache ≡ i
unfolding choose_slot
choose_slot-first zero i cache h = refl
choose_slot-first (suc n) i cache h =
    let e : ((cache i).hits == 0) ≡ true = ground (arith, h) in rw e refl

abbrev pub new_slot : ℕ → Bytes → Slot
new_slot address name = record { addr = address; name = owned name; hits = 0; stamp = 1 }

-- The slot that is replaced.
namecache_add-first :
    (lookup : ℕ → Bytes) (address : ℕ) (name : Bytes) (cache : Slots)
    → AreTrue lookup cache
    → namecache_add address name cache
      ≡ some (set_slot (calc_hash address) (new_slot address name) cache)
unfolding namecache_add
namecache_add-first lookup address name cache h =
    let i = calc_hash address in
    ap (λ j. store_name j address name cache) (choose_slot-first slot_count i cache (h i).hits)
    ∙ ap (λ b. if b then none else some (set_slot i (new_slot address name) cache)) (h i).live

some_inj : (i j : ℕ) → Path (Option ℕ) (some i) (some j) → i ≡ j
some_inj i j h = cc

-- The slot that is found has the address.
find_slot-found :
    (n i addr : ℕ) (cache : Slots) (k : ℕ)
    → find_slot n i addr cache ≡ some k
    → (cache k).addr ≡ addr
unfolding find_slot
find_slot-found zero i addr cache k h = absurd cc
find_slot-found (suc n) i addr cache k h = elim (Bool-cases ((cache i).addr == addr)) [
  | inl here ↦
      (let e : i ≡ k = some_inj i k (rw here at h) in
        let same : (cache i).addr ≡ addr = ground (arith, here) in
        subst (λ j. (cache j).addr ≡ addr) e same)
  | inr other ↦ find_slot-found n (i + 1) addr cache k (rw other at h)
]

new-IsTrue :
    (lookup : ℕ → Bytes) (address i : ℕ) (cache : Slots)
    → AreTrue lookup cache
    → AreTrue lookup (set_slot i (new_slot address (lookup address)) cache)
new-IsTrue lookup address i cache h j = elim (Bool-cases (j == i)) [
  | inl e ↦ rw e (record { hits = refl; named = λ k. refl; live = refl })
  | inr e ↦ rw e (h j)
]

-- The name that is given for an address, with the cache afterwards.
abbrev pub Answered : Type 0
Answered = Option (Name × Slots)

module _ (lookup : ℕ → Bytes) where
  abbrev pub reply_new : ℕ → Option Slots → Answered
  reply_new addr none = none
  reply_new addr (some cache) = some (owned (lookup addr), cache)

  abbrev pub reply : ℕ → Slots → Option ℕ → Answered
  reply addr cache (some i) = some ((cache i).name, cache)
  reply addr cache none = reply_new addr (namecache_add addr (lookup addr) cache)

  -- `lookup` is the text that is made for an address that is not in the cache, while no mapping is
  -- added. The branch for `keep_resolved` does not use the cache and is left out.
  unfoldable pub resolve_address : ℕ → Slots → Answered
  resolve_address addr cache = reply addr cache (namecache_get_data addr cache)

  abbrev pub then_resolve :
      Answered → (Slots → Option (List Name × Slots)) → Option (List Name × Slots)
  then_resolve none go = none
  then_resolve (some (name, cache)) go = with_name name (go cache)
    where
      with_name : Name → Option (List Name × Slots) → Option (List Name × Slots)
      with_name name none = none
      with_name name (some (names, cache)) = some (name ∷ names, cache)

  -- One address after the other.
  unfoldable pub resolve_all : List ℕ → Slots → Option (List Name × Slots)
  resolve_all [] cache = some ([], cache)
  resolve_all (addr ∷ addrs) cache = then_resolve (resolve_address addr cache) (resolve_all addrs)

  reply_found :
      (addr i : ℕ) (cache : Slots)
      → AreTrue lookup cache
      → addr ≢ 0
      → (cache i).addr ≡ addr
      → (cache i).name ≡ owned (lookup addr)
  reply_found addr i cache h ne e = (h i).named (λ z. ne (sym e ∙ z)) ∙ ap (λ a. owned (lookup a)) e

  reply_true :
      (addr : ℕ) (cache : Slots) (o : Option ℕ)
      → AreTrue lookup cache
      → addr ≢ 0
      → ((k : ℕ) → o ≡ some k → (cache k).addr ≡ addr)
      → (after : Slots) × (reply addr cache o ≡ some (owned (lookup addr), after))
        × AreTrue lookup after
  reply_true addr cache (some i) h ne f =
      (cache, ap (λ n. some (n, cache)) (reply_found addr i cache h ne (f i refl)), h)
  reply_true addr cache none h ne f = (
    set_slot (calc_hash addr) (new_slot addr (lookup addr)) cache,
    ap (reply_new addr) (namecache_add-first lookup addr (lookup addr) cache h),
    new-IsTrue lookup addr (calc_hash addr) cache h,
  )

  -- For addresses that are not 0, one after the other, and a cache whose slots are empty or hold
  -- the names of their addresses, the cache never frees a name twice, gives for each address the
  -- name that `lookup` makes of it, and stays such a cache.
  pub resolve_all-lookup :
      (addrs : List ℕ) (cache : Slots)
      → AreTrue lookup cache
      → All (λ a. a ≢ 0) addrs
      → (after : Slots) × (resolve_all addrs cache
          ≡ some (map (λ a. owned (lookup a)) addrs, after))
        × AreTrue lookup after
  unfolding resolve_all resolve_address namecache_get_data
  resolve_all-lookup [] cache h ne = (cache, refl, h)
  resolve_all-lookup (addr ∷ addrs) cache h ne =
      let (middle, one, h') =
        reply_true addr cache (namecache_get_data addr cache) h ne.0
          (λ k. find_slot-found slot_count (calc_hash addr) addr cache k) in
      let (after, rest, h'') = resolve_all-lookup addrs middle h' ne.1 in
      (after, rw (one, rest) refl, h'')

pub allocated-AreTrue : (lookup : ℕ → Bytes) → AreTrue lookup allocated
allocated-AreTrue lookup i = record { hits = refl; named = λ ne. absurd (ne refl); live = refl }
