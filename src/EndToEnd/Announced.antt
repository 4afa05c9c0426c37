-- ===== src/EndToEnd/Announced.antt =====
-- The reader of the post-processor on what comes in front of the calls.
use sp_rtrace.Prelude.{
  ℕ, ◌+◌, ◌%◌, ◌^◌, ◌≤◌, ◌<◌, true, List, [], ◌∷◌, ◌++◌, ◌≡◌, refl, sym, ap₂, subst, Option, none,
  some, All, ltb, ◌==◌, if◌then◌else◌, length, length-append, append_assoc, append-nil, arith, map,
}
use sp_rtrace.Proto.Memory.{Bytes}
use sp_rtrace.Proto.Encode.{IsString}
use sp_rtrace.Proto.RoundTrip.{read_dword-dword, read_pointer-qword, read_stringa-string, text_of}
use sp_rtrace.Proto.Types.{output_settings, process_info, module_info, resource_registry}
use sp_rtrace.Tracer.Events.{Module, Resource, Process}
use sp_rtrace.Tracer.Events.Encoded.{module_bytes, resource_bytes}
use sp_rtrace.Tracer.Initial.{IsSmall, module_packet, resource_packet}
use sp_rtrace.Tracer.Packet.Emits.{framed, packets}
use sp_rtrace.Binary.Data
use sp_rtrace.Binary.Data.{Rd, Pinfo, Mmap}
use sp_rtrace.Binary.Generic.{Parser, dispatch, add_resource}
use sp_rtrace.Binary.Packets.{read_pinfo, read_depth, read_mmap, check_version}
use sp_rtrace.Binary.ReadBack.{
  IsModule, IsResource, IsProcess, minfo_of, resource_of, read_minfo-module_bytes,
  read_resource-resource_bytes,
}
use sp_rtrace.Binary.Chunks.{Takes, Chain, done, packet}
use sp_rtrace.Rtrace.Listener.{System}
use sp_rtrace.Rtrace.Listener.Maps.{Mapping, mmap_packet}
use sp_rtrace.Rtrace.Listener.Scan.{map_packets}
use sp_rtrace.Rtrace.Listener.Special.{stamped_bytes}

pub Chain-append :
    {p q r : Parser} {xs ys : Bytes} → Chain p xs q → Chain q ys r → Chain p (xs ++ ys) r
Chain-append done c = c
Chain-append {p} {q} {r} {xs} {ys} (packet {type} {bs} {ds} t b) c =
    subst (λ l. Chain p l r) (sym (append_assoc (framed type bs) ds ys))
      (packet t (Chain-append b c))

-- Where the reader finds the types, which it numbers from `n` on.
unfoldable pub index_from : ℕ → (ℕ → Option ℕ) → List Resource → ℕ → Option ℕ
index_from n index [] = index
index_from n index (r ∷ rs) = index_from (n + 1) (λ i. if i == r.id then some n else index i) rs

-- A reader that has not read a call yet, with `n` types.
pub record IsStarted (p : Parser) (n : ℕ) (index : ℕ → Option ℕ) : Type 0 where
  pub new : 2 ≤ p.rd.hshake.vmajor
  pub calls : p.rd.calls ≡ []
  pub first : p.call_index ≡ 1
  pub types : length p.rd.resources ≡ n
  pub found : p.res_index ≡ index

-- The packets are taken by a reader that has not read a call, and by then it has `m` types.
abbrev pub Starts : Parser → Bytes → ℕ → (ℕ → Option ℕ) → Type 0
Starts p bytes m index = (q : Parser) × Chain p bytes q × IsStarted q m index

one_packet : {p q : Parser} {type : ℕ} {bs : Bytes} → Takes p type bs q → Chain p (framed type bs) q
one_packet {p} {q} {type} {bs} t =
    subst (λ l. Chain p l q) (append-nil (framed type bs)) (packet t done)

pub Starts-then :
    {p : Parser} {xs ys : Bytes} {n m : ℕ} {f g : ℕ → Option ℕ}
    → Starts p xs n f
    → ((q : Parser) → IsStarted q n f → Starts q ys m g)
    → Starts p (xs ++ ys) m g
Starts-then (q, chain, started) go =
    let (r, rest, ended) = go q started in (r, Chain-append chain rest, ended)

abbrev with_rd : Parser → Rd → Parser
with_rd p rd = record p { rd = rd; fcall_prev = none }

abbrev with_resource : Parser → Data.Resource → Parser
with_resource p r = record p {
  rd = record p.rd { resources = p.rd.resources ++ r ∷ [] };
  res_index = λ i. if i == r.id then some (length p.rd.resources) else p.res_index i;
  fcall_prev = none;
}

-- What the reader makes of a process that got its time of start.
abbrev started_of : System → Process → Pinfo
started_of out x = record {
  pid = x.pid % 2 ^ 32;
  sec = out.tv_sec % 2 ^ 32;
  usec = out.tv_usec % 2 ^ 32;
  backtrace_depth = some (x.backtrace_depth % 2 ^ 32);
  name = text_of x.name;
}

abbrev mmap_of : Mapping → Mmap
mmap_of m = record { from = m.from % 2 ^ 64; to = m.to % 2 ^ 64; module_name = m.name }

module _ (p : Parser) {n : ℕ} {index : ℕ → Option ℕ} (h : IsStarted p n index) where
  pub settings_start :
      (bs : Bytes)
      → length (framed output_settings bs) ≤ 4096
      → Starts p (framed output_settings bs) n index
  unfolding dispatch
  settings_start bs fits = (
    p,
    one_packet (record {
      new = h.new;
      small = omega arith;
      other = omega arith;
      fits = fits;
      run = λ rest. refl;
    }),
    h,
  )

  pub process_start :
      (out : System) (x : Process)
      → IsProcess x
      → length (framed process_info (stamped_bytes out x)) ≤ 4096
      → Starts p (framed process_info (stamped_bytes out x)) n index
  unfolding dispatch read_pinfo read_depth check_version
  process_start out x k fits =
      let v : ltb 1 p.rd.hshake.vmajor ≡ true = let new = h.new in ground arith in
      (
        with_rd p (record p.rd { pinfo = some (started_of out x) }),
        one_packet (record {
          new = h.new;
          small = omega arith;
          other = omega arith;
          fits = fits;
          run = λ rest. simp (v, append_assoc, read_dword-dword, read_stringa-string x.name k.name);
        }),
        record { new = h.new; calls = h.calls; first = h.first; types = h.types; found = h.found },
      )

  pub module_start :
      (m : Module)
      → IsModule m
      → IsSmall (module_packet m)
      → Starts p (framed module_info (module_bytes m)) n index
  unfolding dispatch
  module_start m k fits = (
    with_rd p (record p.rd { minfo = p.rd.minfo ++ minfo_of m ∷ [] }),
    one_packet (record {
      new = h.new;
      small = omega arith;
      other = omega arith;
      fits = fits;
      run = λ rest. rw (read_minfo-module_bytes m rest k) refl;
    }),
    record { new = h.new; calls = h.calls; first = h.first; types = h.types; found = h.found },
  )

  pub resource_start :
      (r : Resource)
      → IsResource r
      → r.id < 33
      → IsSmall (resource_packet r)
      → Starts p
          (framed resource_registry (resource_bytes r))
          (n + 1)
          (λ i. if i == r.id then some n else index i)
  unfolding dispatch add_resource
  resource_start r k known fits =
      let inside : ltb r.id 33 ≡ true = ground arith in
      (
        with_resource p (resource_of r),
        one_packet (record {
          new = h.new;
          small = omega arith;
          other = omega arith;
          fits = fits;
          run = λ rest. rw (read_resource-resource_bytes p.rd.hshake r rest h.new k, inside) refl;
        }),
        record {
          new = h.new;
          calls = h.calls;
          first = h.first;
          types = omega (arith, length-append p.rd.resources (_ ∷ []), h.types);
          found = ap₂ (λ c f i. if i == r.id then some c else f i) h.types h.found;
        },
      )

  pub mmap_start :
      (m : Mapping)
      → IsString (some m.name)
      → length (mmap_packet m) ≤ 4096
      → Starts p (mmap_packet m) n index
  unfolding dispatch read_mmap
  mmap_start m k fits = (
    with_rd p (record p.rd { mmaps = p.rd.mmaps ++ mmap_of m ∷ [] }),
    one_packet (record {
      new = h.new;
      small = omega arith;
      other = omega arith;
      fits = fits;
      run = λ rest. simp (append_assoc, read_pointer-qword, read_stringa-string (some m.name) k);
    }),
    record { new = h.new; calls = h.calls; first = h.first; types = h.types; found = h.found },
  )

pub modules_start :
    (ms : List Module) (p : Parser) {n : ℕ} {index : ℕ → Option ℕ}
    → IsStarted p n index
    → All IsModule ms
    → All IsSmall (map module_packet ms)
    → Starts p (packets (map module_packet ms)) n index
unfolding packets
modules_start [] p h k small = (p, done, h)
modules_start (m ∷ ms) p h k small =
    Starts-then (module_start p h m k.0 small.0) (λ q g. modules_start ms q g k.1 small.1)

-- A resource type that the reader has a place for.
abbrev pub IsKnown : Resource → Type 0
IsKnown r = IsResource r × (r.id < 33)

pub resources_start :
    (rs : List Resource) (p : Parser) {n : ℕ} {index : ℕ → Option ℕ}
    → IsStarted p n index
    → All IsKnown rs
    → All IsSmall (map resource_packet rs)
    → (m : ℕ) × Starts p (packets (map resource_packet rs)) m (index_from n index rs)
unfolding packets index_from
resources_start [] p {n} h k small = (n, (p, done, h))
resources_start (r ∷ rs) p {n} {index} h k small =
    let (q, chain, g) = resource_start p h r k.0.0 k.0.1 small.0 in
    let (m, (u, rest, ended)) = resources_start rs q g k.1 small.1 in
    (m, (u, Chain-append chain rest, ended))

-- A mapping whose packet the reader takes.
abbrev pub IsMapping : Mapping → Type 0
IsMapping m = IsString (some m.name) × (length (mmap_packet m) ≤ 4096)

pub mmaps_start :
    (ms : List Mapping) (p : Parser) {n : ℕ} {index : ℕ → Option ℕ}
    → IsStarted p n index
    → All IsMapping ms
    → Starts p (map_packets ms) n index
unfolding map_packets
mmaps_start [] p h k = (p, done, h)
mmaps_start (m ∷ ms) p h k =
    Starts-then (mmap_start p h m k.0.0 k.0.1) (λ q g. mmaps_start ms q g k.1)
