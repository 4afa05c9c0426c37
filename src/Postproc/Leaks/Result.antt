-- ===== src/Postproc/Leaks/Result.antt =====
-- What `filter_leaks` leaves of the calls.
use sp_rtrace.Prelude.{
  ℕ, ◌+◌, List, [], ◌∷◌, ◌++◌, ◌≡◌, sym, ap, ◌∙◌, Option, some, All, ◌==◌, Bool-cases, inl, inr,
}
use sp_rtrace.Binary.Data.{Fcall, Resource}
use sp_rtrace.Postproc.Leaks.{
  Node, Fres, Index, type_alloc, type_free, find_res, next, foreach, numbered, filter_leaks,
}
use sp_rtrace.Postproc.Leaks.Keys.{Distinct, IsPlain}
use sp_rtrace.Postproc.Leaks.Table.{others}
use sp_rtrace.Postproc.Leaks.Pending.{leaks, pending, pending-nil}
use sp_rtrace.Postproc.Leaks.Keep.{keep, keep_all}
use sp_rtrace.Postproc.Leaks.Nodes.{Ready, record_of, start, without}
use sp_rtrace.Postproc.Leaks.Step.{
  alloc-Ready, free-Ready, other-Ready, alloc_keep, free_keep, other_keep, one_alloc, one_free,
  one_other,
}

-- The run ends with these calls; the table is thrown away.
abbrev pub Leaves : Option Index → List Node → Type 0
Leaves run xs = (t : List Fres) × (run ≡ some (record { calls = xs; table = t }))

module _ (rs : List Resource) (d : Distinct rs) where
  -- A step, and the loop behind it.
  step_then :
      (cs : List Node) {first : Option Index} {s : Index} {xs ys : List Node}
      → first ≡ some s
      → Leaves (foreach rs cs s) xs
      → xs ≡ ys
      → Leaves (next first (foreach rs cs)) ys
  step_then cs one (t, ran) e = (
    t,
    ap (λ r. next r (foreach rs cs)) one ∙ ran ∙ ap (λ l. some (record { calls = l; table = t })) e,
  )

  -- The loop from call `n` on.
  foreach-leaks :
      (cs : List Fcall) (n : ℕ) (done : List Node) (table : List Fres)
      → All (IsPlain rs) cs
      → Ready rs n done table
      → Leaves
          (foreach rs (numbered n cs) (start n done cs table))
          (keep (pending table cs) done ++ leaks n cs)
  unfolding foreach numbered leaks
  foreach-leaks [] n done table p h = (
    table,
    ap (λ l. some (record { calls = l ++ []; table = table }))
        (sym (keep_all (pending table []) done (λ m. pending-nil table m))),
  )
  foreach-leaks (c ∷ cs) n done table p h =
      let found = find_res rs c table in
      elim (Bool-cases (c.type == type_alloc)) [
        | inl a ↦
            step_then (numbered (n + 1) cs) (one_alloc rs d n c cs done table p.0 h a)
              (foreach-leaks cs (n + 1) (done ++ (n, c) ∷ [])
                (others found table ++ record_of n c ∷ []) p.1
                (alloc-Ready rs d n c cs done table p.0 h))
              (alloc_keep rs d n c cs done table p.0 h a)
        | inr a ↦ elim (Bool-cases (c.type == type_free)) [
          | inl e ↦
              step_then (numbered (n + 1) cs) (one_free rs d n c cs done table p.0 h e)
                (foreach-leaks cs (n + 1) (without found done) (others found table) p.1
                  (free-Ready rs d n c cs done table p.0 h))
                (free_keep rs d n c cs done table p.0 h e)
          | inr e ↦
              step_then (numbered (n + 1) cs) (one_other rs d n c cs done table p.0 h a e)
                (foreach-leaks cs (n + 1) (done ++ (n, c) ∷ []) table p.1
                  (other-Ready rs d n c cs done table p.0 h))
                (other_keep rs d n c cs done table p.0 h a e)
        ]
      ]

-- Where each registered type has an id of its own and all calls have registered types without
-- reference counts, `filter_leaks` runs without a fault and leaves, in order, exactly the calls
-- that are not allocations or deallocations, and the allocations after which the next allocation
-- or deallocation of the same type and identifier is not a deallocation.
pub filter_leaks-leaks :
    (rs : List Resource) (calls : List Fcall)
    → Distinct rs
    → All (IsPlain rs) calls
    → Leaves (filter_leaks rs calls) (leaks 0 calls)
unfolding filter_leaks keep
filter_leaks-leaks rs calls d p =
    foreach-leaks rs d calls 0 [] [] p
      (record { plain = tt; unique = tt; earlier = tt; below = tt })
