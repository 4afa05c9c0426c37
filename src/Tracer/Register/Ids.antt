-- ===== src/Tracer/Register/Ids.antt =====
-- The ids of the registered types.
use sp_rtrace.Prelude.{
  ℕ, suc, ◌+◌, ◌≤◌, ◌<◌, Bool, true, [], ◌∷◌, ◌++◌, ◌≡◌, refl, ap, ◌∙◌, ◌⊎◌, inl, inr, Option, none,
  some, not, leb, leb-false, leb→le, length, length-append, arith, if◌then◌else◌, Bool-cases,
}
use sp_rtrace.Proto.Memory.{Bytes}
use sp_rtrace.Tracer.Pipe.{Pipe}
use sp_rtrace.Tracer.Pipe.Stream.{IsReady}
use sp_rtrace.Tracer.Events.{Resource, send_enabled, resource_body, write_resource_registry}
use sp_rtrace.Tracer.Events.Encoded.{resource_bytes, resource_body-Emits}
use sp_rtrace.Tracer.Packet.{packet, send}
use sp_rtrace.Tracer.Packet.Emits.{packet-Emits, framed}
use sp_rtrace.Tracer.Call.Sent.{send-Sends}
use sp_rtrace.Proto.Types.{resource_registry}
use sp_rtrace.Tracer.Register.{
  same_text, same_type, find_resource, max_resources, no_resource, Registry, numbered, add_type,
  register_resource,
}

-- A type with a name.
abbrev pub IsNamed : Resource → Type 0
IsNamed r = (t : Bytes) × (r.type ≡ some t)

-- The ids count up from `n`.
abbrev pub Numbered : ℕ → Registry → Type 0
Numbered n [] = Unit
Numbered n (x ∷ xs) = (x.id ≡ n) × IsNamed x × Numbered (suc n) xs

pub record IsRegistry (rs : Registry) : Type 0 where
  pub ids : Numbered 1 rs
  pub small : length rs ≤ max_resources

same_text_self : (s : Bytes) → same_text s s ≡ true
unfolding same_text
same_text_self [] = refl
same_text_self (c ∷ s) = ground (arith, same_text_self s)

same_type_self :
    (r x : Resource) → IsNamed r → x.type ≡ r.type → same_type x.type r.type ≡ some true
unfolding same_type
same_type_self r x (t, e) h = rw (h, e) (ap some (same_text_self t))

named_types :
    (x r : Resource) → IsNamed x → IsNamed r → (b : Bool) × (same_type x.type r.type ≡ some b)
unfolding same_type
named_types x r (t, e) (u, f) = (same_text t u, rw (e, f))

-- The search gives an answer, and an id that it finds is in range.
abbrev pub InRange : ℕ → ℕ → Option (Option ℕ) → Type 0
InRange n k o = (o ≡ some none) ⊎ ((id : ℕ) × (o ≡ some (some id)) × (n ≤ id) × (id < n + k))

find_resource-InRange :
    (n : ℕ) (r : Resource) (rs : Registry)
    → IsNamed r
    → Numbered n rs
    → InRange n (length rs) (find_resource r rs)
unfolding find_resource
find_resource-InRange n r [] named h = inl refl
find_resource-InRange n r (x ∷ xs) named h =
    let (b, e) = named_types x r h.1 named in
    elim (Bool-cases b) [
      | inl hit ↦ inr (x.id, rw (e, hit), omega (arith, h.0), omega (arith, h.0))
      | inr miss ↦ elim (find_resource-InRange (suc n) r xs named h.2) [
        | inl l ↦ inl (rw (e, miss) l)
        | inr found ↦
            let (id, f, low, high) = found in
            inr (id, rw (e, miss) f, omega (arith, low), omega (arith, high))
      ]
    ]

Numbered-concat :
    (n : ℕ) (rs : Registry) (x : Resource)
    → Numbered n rs
    → IsNamed x
    → x.id ≡ n + length rs
    → Numbered n (rs ++ x ∷ [])
Numbered-concat n [] x h named e = (e ∙ omega arith, named, tt)
Numbered-concat n (y ∷ rs) x h named e =
    (h.0, h.1, Numbered-concat (suc n) rs x h.2 named (e ∙ omega arith))

-- A type that was not found is found when it has been added.
find_resource-concat :
    (n : ℕ) (r x : Resource) (rs : Registry)
    → IsNamed r
    → Numbered n rs
    → x.type ≡ r.type
    → find_resource r rs ≡ some none
    → find_resource r (rs ++ x ∷ []) ≡ some (some x.id)
unfolding find_resource
find_resource-concat n r x [] named h same e = rw (same_type_self r x named same)
find_resource-concat n r x (y ∷ rs) named h same e =
    let (b, f) = named_types y r h.1 named in
    elim (Bool-cases b) [
      | inl hit ↦ (let bad = rw (f, hit) at e in cc)
      | inr miss ↦
          rw (f, miss) (find_resource-concat (suc n) r x rs named h.2 same (rw (f, miss) at e))
    ]

-- What a registration comes to: the registry is full, which the id tells, or the id is one of the
-- 32 and is found from then on.
pub data IdGiven (r : Resource) (rs : Registry) : ℕ → Registry → Type 0 where
  full : length rs ≡ max_resources → find_resource r rs ≡ some none → IdGiven r rs no_resource rs
  registered :
      {id : ℕ} {us : Registry}
      → 1 ≤ id
      → id ≤ max_resources
      → find_resource r us ≡ some (some id)
      → IdGiven r rs id us

pub record Registered (r : Resource) (rs : Registry) (run : Option (ℕ × Registry × Pipe))
    : Type 0 where
  pub id : ℕ
  pub registry : Registry
  pub pipe : Pipe
  pub returns : run ≡ some (id, registry, pipe)
  pub valid : IsRegistry registry
  pub outcome : IdGiven r rs id registry

-- The packet for the new type, which is sent where tracing is enabled.
announcement :
    (new : Resource) (s : Pipe)
    → IsReady s
    → (t : Pipe) × (n : ℕ) × ((if s.enable then write_resource_registry new true s else some (s, 0))
        ≡ some (t, n))
unfolding write_resource_registry send_enabled
announcement new s ready = elim (Bool-cases s.enable) [
  | inl on ↦
      (let sent = send-Sends s (packet-Emits resource_registry (resource_body-Emits new)) ready in
        (
          sent.after,
          length (framed resource_registry (resource_bytes new)),
          ap (λ b. if b then write_resource_registry new true s else some (s, 0)) on
              ∙ ap
                  (λ b.
                    if not b
                    then some (s, 0)
                    else send (packet resource_registry (resource_body new)) true s)
                  on
              ∙ sent.returns,
        ))
  | inr off ↦ (s, 0, rw off)
]

add_type-Registered :
    (r : Resource) (rs : Registry) (s : Pipe)
    → IsRegistry rs
    → IsNamed r
    → IsReady s
    → find_resource r rs ≡ some none
    → Registered r rs (add_type r true rs s)
unfolding add_type
add_type-Registered r rs s h named ready fresh = elim (Bool-cases (leb max_resources (length rs))) [
  | inl no_room ↦ record {
    id = no_resource;
    registry = rs;
    pipe = s;
    returns = rw no_room;
    valid = h;
    outcome = full (let l = h.small in omega (arith, leb→le _ _ no_room, l)) fresh;
  }
  | inr room ↦
      (let (t, n, sent) = announcement (numbered rs r) s ready in
        let l = leb-false _ _ room in
        record {
          id = length rs + 1;
          registry = rs ++ numbered rs r ∷ [];
          pipe = t;
          returns = rw (room, sent);
          valid = record {
            ids = Numbered-concat 1 rs (numbered rs r) h.ids named (omega arith);
            small = omega (arith, length-append rs (numbered rs r ∷ []), l);
          };
          outcome =
              registered (omega arith) (omega (arith, l))
                (find_resource-concat 1 r (numbered rs r) rs named h.ids refl fresh);
        })
]

-- For a type with a name and an unlocked pipe in bounds, `sp_rtrace_register_resource` returns if
-- `write` succeeds; the registry keeps ids that count up from 1 and at most 32 types; the id is -1
-- and the registry unchanged if it is full and does not have the type, and otherwise it is between
-- 1 and 32 and is the one that is found for the type from then on.
pub register_resource-Registered :
    (r : Resource) (rs : Registry) (s : Pipe)
    → IsRegistry rs
    → IsNamed r
    → IsReady s
    → Registered r rs (register_resource r true rs s)
unfolding register_resource
register_resource-Registered r rs s h named ready =
    elim (find_resource-InRange 1 r rs named h.ids) [
      | inl fresh ↦
          (let new = add_type-Registered r rs s h named ready fresh in
            record {
              id = new.id;
              registry = new.registry;
              pipe = new.pipe;
              returns = rw fresh new.returns;
              valid = new.valid;
              outcome = new.outcome;
            })
      | inr found ↦
          (let (id, e, low, high) = found in
            let l = h.small in
            record {
              id = id;
              registry = rs;
              pipe = s;
              returns = rw e;
              valid = h;
              outcome = registered low (omega (arith, high, l)) e;
            })
    ]
