-- ===== src/Modules/Shmposix/Names.antt =====
-- The registry of object names of src/modules/sp_rtrace_shmposix.c, where each name has a number
-- of 32 bits. The search tree of the C library is a list of its nodes; malloc and strdup succeed.
use sp_rtrace.Prelude.{
  ℕ, zero, suc, ◌+◌, ◌-◌, ◌*◌, ◌/◌, ◌%◌, ◌^◌, Bool, false, List, [], ◌∷◌, Option, none, some, ◌==◌,
  ◌||◌, bit_xor, ltb, if◌then◌else◌, length,
}
use sp_rtrace.Proto.Memory.{Bytes}
use sp_rtrace.Tracer.Register.{same_text}

-- `nreg_node_t`: the name and its hash.
abbrev pub Names : Type 0
Names = List (Bytes × ℕ)

-- A character is signed, and extended to an unsigned int.
abbrev pub char_to_int : ℕ → ℕ
char_to_int c = if ltb c 128 then c else c + (2 ^ 32 - 256)

unfoldable pub mix : ℕ → ℕ → ℕ
mix hash c =
    let added = (hash + char_to_int c) % 2 ^ 32 in
    let shifted = (added + added * 2 ^ 10) % 2 ^ 32 in bit_xor shifted (shifted / 2 ^ 6)

unfoldable pub mix_all : ℕ → Bytes → ℕ
mix_all hash [] = hash
mix_all hash (c ∷ name) = mix_all (mix hash c) name

unfoldable pub nreg_calc_raw_hash : Bytes → ℕ
nreg_calc_raw_hash name =
    let hash = mix_all 0 name in
    let shifted = (hash + hash * 2 ^ 3) % 2 ^ 32 in
    let mixed = bit_xor shifted (shifted / 2 ^ 11) in (mixed + mixed * 2 ^ 15) % 2 ^ 32

-- `twalk` with `nreg_validate_hash`.
unfoldable pub nreg_hash_exists : ℕ → Names → Bool
nreg_hash_exists hash [] = false
nreg_hash_exists hash ((name, h) ∷ names) = h == hash || nreg_hash_exists hash names

-- `while (nreg_hash_exists(hash)) hash++;`; `none`: the rounds are used up.
unfoldable pub next_free : ℕ → ℕ → Names → Option ℕ
next_free zero hash names = none
next_free (suc f) hash names =
    let rest = next_free f ((hash + 1) % 2 ^ 32) names in
    if nreg_hash_exists hash names then rest else some hash

-- One round more than names.
unfoldable pub nreg_calc_hash : Bytes → Names → Option ℕ
nreg_calc_hash name names = next_free (suc (length names)) (nreg_calc_raw_hash name) names

unfoldable pub find_name : Bytes → Names → Option ℕ
find_name name [] = none
find_name name ((t, h) ∷ names) = if same_text t name then some h else find_name name names

abbrev pub with_name : Bytes → Names → Option ℕ → Option (ℕ × Names)
with_name name names none = none
with_name name names (some h) = some (h, (name, h) ∷ names)

abbrev pub found_or : Option ℕ → Names → Option (ℕ × Names) → Option (ℕ × Names)
found_or none names new = new
found_or (some h) names new = some (h, names)

unfoldable pub nreg_get_hash : Bytes → Names → Option (ℕ × Names)
nreg_get_hash name names =
    found_or (find_name name names) names (with_name name names (nreg_calc_hash name names))
