-- ===== src/Tracer/Register.antt =====
-- The registry of resource types: `sp_rtrace_register_resource` of src/modules/sp_rtrace_main.c.
pub mod Ids
use sp_rtrace.Prelude.{
  ℕ, ◌+◌, ◌-◌, ◌^◌, Bool, true, false, List, [], ◌∷◌, ◌++◌, Option, none, some, ◌==◌, ◌&&◌, leb,
  length, if◌then◌else◌,
}
use sp_rtrace.Proto.Memory.{Bytes}
use sp_rtrace.Tracer.Pipe.{Pipe}
use sp_rtrace.Tracer.Events.{Resource, write_resource_registry}

-- Whether `strcmp` is 0.
unfoldable pub same_text : Bytes → Bytes → Bool
same_text [] [] = true
same_text (a ∷ s) (b ∷ t) = a == b && same_text s t
same_text _ _ = false

-- `strcmp` of a null pointer faults.
unfoldable pub same_type : Option Bytes → Option Bytes → Option Bool
same_type (some s) (some t) = some (same_text s t)
same_type _ _ = none

abbrev pub next_type : Option Bool → ℕ → Option (Option ℕ) → Option (Option ℕ)
next_type none id rest = none
next_type (some true) id rest = some (some id)
next_type (some false) id rest = rest

-- The loop over the registered types: the id of the one that has the name.
unfoldable pub find_resource : Resource → List Resource → Option (Option ℕ)
find_resource r [] = some none
find_resource r (x ∷ xs) = next_type (same_type x.type r.type) x.id (find_resource r xs)

-- ARRAY_SIZE(rtrace_resources)
abbrev pub max_resources : ℕ
max_resources = 32

-- `return -1`, as an unsigned int.
abbrev pub no_resource : ℕ
no_resource = 2 ^ 32 - 1

abbrev pub Registry : Type 0
Registry = List Resource

abbrev pub numbered : Registry → Resource → Resource
numbered rs r = record r { id = length rs + 1 }

-- The packet's size is not used.
abbrev pub announced : ℕ → Registry → Option (Pipe × ℕ) → Option (ℕ × Registry × Pipe)
announced id rs none = none
announced id rs (some (s, n)) = some (id, rs, s)

unfoldable pub add_type : Resource → Bool → Registry → Pipe → Option (ℕ × Registry × Pipe)
add_type r answer rs s =
    let new = numbered rs r in
    if leb max_resources (length rs)
    then some (no_resource, rs, s)
    else announced new.id (rs ++ new ∷ [])
        (if s.enable then write_resource_registry new answer s else some (s, 0))

abbrev pub known_or_new :
    Option (Option ℕ)
    → Option (ℕ × Registry × Pipe)
    → Registry
    → Pipe
    → Option (ℕ × Registry × Pipe)
known_or_new none new rs s = none
known_or_new (some (some id)) new rs s = some (id, rs, s)
known_or_new (some none) new rs s = new

-- `none`: a fault, or a pipe that stays locked.
unfoldable pub register_resource : Resource → Bool → Registry → Pipe → Option (ℕ × Registry × Pipe)
register_resource r answer rs s = known_or_new (find_resource r rs) (add_type r answer rs s) rs s
