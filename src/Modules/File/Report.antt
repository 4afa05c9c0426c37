-- ===== src/Modules/File/Report.antt =====
-- From the calls of the file functions to the leaks of the post-processor.
use sp_rtrace.Prelude.{
  ℕ, true, List, [], ◌≡◌, sym, ap, ◌∙◌, Option, none, some, ◌==◌, ◌&&◌, map, All, arith, inl, inr,
  Bool-cases, get_elem?,
}
use sp_rtrace.Binary.Data.{Fcall, Resource}
use sp_rtrace.Postproc.Leaks.{Node, filter_leaks, at, id_of, same_pointer}
use sp_rtrace.Postproc.Leaks.Keys.{Distinct, IsPlain, same_key}
use sp_rtrace.Postproc.Leaks.Pending.{leaks}
use sp_rtrace.Postproc.Leaks.Result.{Leaves, filter_leaks-leaks}
use sp_rtrace.Modules.Held.{Action, told, fresh, told-leaks, staying}
use sp_rtrace.Modules.File.State.{Files, Ids}
use sp_rtrace.Modules.File.Calls.{Use, reports_all}
use sp_rtrace.Modules.File.Live.{Key, same, opened_all, grants_all, all_told}
use sp_rtrace.Modules.File.Told.{action_of, tracing, told-reports_all}

abbrev number_of : Option ℕ → ℕ
number_of none = 0
number_of (some id) = id

abbrev pub type_of : List Resource → Option ℕ → ℕ
type_of types t = number_of (id_of (at types t))

-- The id of the call's registered type, and the identifier.
abbrev pub key_of : List Resource → Fcall → Key
key_of types c = (type_of types c.res_type, c.res_id)

abbrev pub stored_action : List Resource → Fcall → Action Key
stored_action types c = (c.type, key_of types c)

abbrev pub handle_of : List Resource → Node → Key
handle_of types x = key_of types x.1

same_type :
    (types : List Resource) (a b : Fcall)
    → Distinct types
    → IsPlain types a
    → IsPlain types b
    → same_pointer a.res_type b.res_type ≡ (type_of types a.res_type == type_of types b.res_type)
same_type types a b d h k = elim (Bool-cases (h.position == k.position)) [
  | inl alike ↦
      (let i : h.position ≡ k.position = ground (arith, alike) in
        let stored = ap (λ p. number_of (id_of (get_elem? types p))) i in
        rw (h.typed, k.typed, alike) (ground (arith, stored)))
  | inr other ↦
      rw (h.typed, k.typed, other, h.stored, k.stored)
        (elim (Bool-cases (h.resource.id == k.resource.id)) [
          | inl e ↦
              (let i =
                  d h.position k.position h.resource k.resource h.stored k.stored
                    (ground (arith, e)) in
                absurd (ground (arith, other, i)))
          | inr e ↦ sym e
        ])
]

keyed :
    (types : List Resource)
    → Distinct types
    → (a b : Fcall) → IsPlain types a
    → IsPlain types b
    → same_key a b ≡ same (key_of types a) (key_of types b)
unfolding same_key
keyed types d a b h k = ap (λ t. t && a.res_id == b.res_id) (same_type types a b d h k)

-- Let the stored calls tell the same types, registered types and identifiers as what a tracing
-- process reports of the file functions, and all have a registered type without reference counts;
-- let each registered type have an id of its own; let the system never open what is open, `dup2`
-- and `dup3` return the descriptor that they were given, and no stream be closed by a call that
-- fails, by a `pclose` with another status than 0, or by `fcloseall`. Then `filter_leaks` runs
-- without a fault, and the calls it leaves are, in order, exactly those of the descriptors and
-- streams that the process still has open, a bound or connected socket standing where it got its
-- last address.
pub filter_leaks-opened_all :
    (types : List Resource) (cs : List Fcall) (ids : Ids) (us : List Use) (s : Files)
    → Distinct types
    → All (IsPlain types) cs
    → map (stored_action types) cs ≡ map action_of (reports_all ids tracing us s).1
    → all_told us ≡ true
    → grants_all ids us [] ≡ true
    → (nodes : List Node) × Leaves (filter_leaks types cs) nodes
      × (map (handle_of types) nodes ≡ opened_all ids us [])
unfolding staying
filter_leaks-opened_all types cs ids us s d plain matched all grants =
    let (tells, new) = told-reports_all ids us s [] all grants in
    let fresh_calls = ap (λ l. fresh same l []) matched ∙ new in
    (
      leaks 0 cs,
      filter_leaks-leaks types cs d plain,
      sym (told-leaks same (key_of types) (IsPlain types) (keyed types d) cs 0 [] plain fresh_calls)
          ∙ ap (λ l. told same l []) matched
          ∙ tells,
    )
