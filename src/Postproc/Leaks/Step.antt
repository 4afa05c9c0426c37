-- ===== src/Postproc/Leaks/Step.antt =====
-- One call of `fcall_remove_freed`.
use sp_rtrace.Prelude.{
  ℕ, ◌+◌, ◌<◌, true, false, List, [], ◌∷◌, ◌++◌, ◌≡◌, sym, ap, ◌∙◌, fun_ext, Option, some, All,
  All-append, append_assoc, ◌==◌, if◌then◌else◌, arith,
}
use sp_rtrace.Binary.Data.{Fcall, Resource}
use sp_rtrace.Postproc.Leaks.{
  Node, Fres, Split, type_alloc, type_free, find_res, fcall_remove_freed, numbered,
}
use sp_rtrace.Postproc.Leaks.Keys.{Distinct, IsPlain, refcounted-false}
use sp_rtrace.Postproc.Leaks.Table.{
  Found, others, find_res-Found, All-others, Unique-others, NoKey-others, Unique-concat,
}
use sp_rtrace.Postproc.Leaks.Pending.{
  freed_later, leaks, pending, pending_other, pending_alloc, pending_free, pending_below,
}
use sp_rtrace.Postproc.Leaks.Keep.{keep}
use sp_rtrace.Postproc.Leaks.Nodes.{
  Ready, record_of, without, start, All-map, keep_congr, step_alloc-plain, without-All, keep_last,
  keep-without, pending_old, pending_new, drop_both, step_free-plain,
}

module _ (rs : List Resource) (d : Distinct rs) where
  record-Found :
      (n : ℕ) (c : Fcall) (done : List Node) (table : List Fres)
      → IsPlain rs c
      → Ready rs n done table
      → Found c table (find_res rs c table)
  record-Found n c done table p h = find_res-Found rs c table d p h.plain h.unique

  module _ (n : ℕ) (c : Fcall) (cs : List Fcall) (done : List Node) (table : List Fres)
      (p : IsPlain rs c) (h : Ready rs n done table) where
    abbrev pub hit : Option Split
    hit = find_res rs c table

    moved : (done ++ (n, c) ∷ []) ++ numbered (n + 1) cs ≡ done ++ numbered n (c ∷ cs)
    unfolding numbered
    moved = append_assoc done ((n, c) ∷ []) (numbered (n + 1) cs)

    below_next : All (λ x. x.0 < n + 1) (done ++ (n, c) ∷ [])
    below_next =
        All-append _ done ((n, c) ∷ []) (All-map done (λ x l. omega (arith, l)) h.below)
          (omega arith, tt)

    pub alloc-Ready :
        Ready rs (n + 1) (done ++ (n, c) ∷ []) (others hit table ++ record_of n c ∷ [])
    alloc-Ready =
        let f = record-Found n c done table p h in
        record {
          plain =
              All-append _ (others hit table) (record_of n c ∷ [])
                (All-others (λ t. IsPlain rs t.call) c table hit f h.plain) (p, tt);
          unique =
              Unique-concat (others hit table) (record_of n c)
                (Unique-others c table hit f h.unique) (NoKey-others c table hit f);
          earlier =
              All-append _ (others hit table) (record_of n c ∷ [])
                (All-map (others hit table) (λ t l. omega (arith, l))
                  (All-others (λ t. t.node < n) c table hit f h.earlier))
                (omega arith, tt);
          below = below_next;
        }

    pub free-Ready : Ready rs (n + 1) (without hit done) (others hit table)
    free-Ready =
        let f = record-Found n c done table p h in
        record {
          plain = All-others (λ t. IsPlain rs t.call) c table hit f h.plain;
          unique = Unique-others c table hit f h.unique;
          earlier =
              All-map (others hit table) (λ t l. omega (arith, l))
                (All-others (λ t. t.node < n) c table hit f h.earlier);
          below = without-All _ hit done (All-map done (λ x l. omega (arith, l)) h.below);
        }

    pub other-Ready : Ready rs (n + 1) (done ++ (n, c) ∷ []) table
    other-Ready = record {
      plain = h.plain;
      unique = h.unique;
      earlier = All-map table (λ t l. omega (arith, l)) h.earlier;
      below = below_next;
    }

    -- The nodes that are left when the allocation has a record.
    pub alloc_keep :
        (c.type == type_alloc) ≡ true
        → keep (pending (others hit table ++ record_of n c ∷ []) cs) (done ++ (n, c) ∷ [])
            ++ leaks (n + 1) cs
          ≡ keep (pending table (c ∷ cs)) done ++ leaks n (c ∷ cs)
    unfolding leaks
    alloc_keep a =
        let f = record-Found n c done table p h in
        let ts = others hit table in
        let q = pending (ts ++ record_of n c ∷ []) cs in
        let early = All-others (λ t. t.node < n) c table hit f h.earlier in
        let same = keep_congr q (pending table (c ∷ cs)) done (
          All-map done
            (λ x l. pending_old ts n c cs x.0 l ∙ sym (pending_alloc c table hit cs x.0 f a))
            h.below) in
        keep_last q done n c (leaks (n + 1) cs)
        ∙ rw (a, pending_new ts n c cs early)
            (ap
              (λ l. l ++ (if freed_later c cs then leaks (n + 1) cs else (n, c) ∷ leaks (n + 1) cs))
              same)

    pub free_keep :
        (c.type == type_free) ≡ true
        → keep (pending (others hit table) cs) (without hit done) ++ leaks (n + 1) cs
          ≡ keep (pending table (c ∷ cs)) done ++ leaks n (c ∷ cs)
    unfolding leaks
    free_keep e =
        let f = record-Found n c done table p h in
        let a : (c.type == type_alloc) ≡ false = ground (arith, e) in
        let same = fun_ext λ m. sym (pending_free c table hit cs m f e) in
        rw (a, e)
          (ap (λ l. l ++ leaks (n + 1) cs)
            (keep-without (pending (others hit table) cs) hit done ∙ ap (λ q. keep q done) same))

    pub other_keep :
        (c.type == type_alloc) ≡ false
        → (c.type == type_free) ≡ false
        → keep (pending table cs) (done ++ (n, c) ∷ []) ++ leaks (n + 1) cs
          ≡ keep (pending table (c ∷ cs)) done ++ leaks n (c ∷ cs)
    unfolding leaks
    other_keep a e =
        let same = fun_ext λ m. sym (pending_other c table cs m a e) in
        keep_last (pending table cs) done n c (leaks (n + 1) cs)
        ∙ rw (a, e, pending_below table cs n h.earlier)
            (ap (λ q. keep q done ++ (n, c) ∷ leaks (n + 1) cs) same)

    pub one_alloc :
        (c.type == type_alloc) ≡ true
        → fcall_remove_freed rs (n, c) (start n done (c ∷ cs) table)
          ≡ some (start (n + 1) (done ++ (n, c) ∷ []) cs (others hit table ++ record_of n c ∷ []))
    unfolding fcall_remove_freed
    one_alloc a =
        rw (a, refcounted-false rs c p)
          (step_alloc-plain n c hit (start n done (c ∷ cs) table)
            ∙ ap (λ l. some (record { calls = l; table = others hit table ++ record_of n c ∷ [] }))
                (sym moved))

    pub one_free :
        (c.type == type_free) ≡ true
        → fcall_remove_freed rs (n, c) (start n done (c ∷ cs) table)
          ≡ some (start (n + 1) (without hit done) cs (others hit table))
    unfolding fcall_remove_freed
    one_free e =
        let a : (c.type == type_alloc) ≡ false = ground (arith, e) in
        rw (a, e, refcounted-false rs c p)
          (step_free-plain n c hit (start n done (c ∷ cs) table)
            ∙ ap (λ l. some (record { calls = l; table = others hit table }))
                (drop_both n c cs done table hit h.below h.earlier
                  (record-Found n c done table p h)))

    pub one_other :
        (c.type == type_alloc) ≡ false
        → (c.type == type_free) ≡ false
        → fcall_remove_freed rs (n, c) (start n done (c ∷ cs) table)
          ≡ some (start (n + 1) (done ++ (n, c) ∷ []) cs table)
    unfolding fcall_remove_freed
    one_other a e = rw (a, e) (ap (λ l. some (record { calls = l; table = table })) (sym moved))
