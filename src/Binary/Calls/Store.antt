-- ===== src/Binary/Calls/Store.antt =====
-- `rd_fcall_set_ftrace` on the call that was stored last.
use sp_rtrace.Prelude.{
  ℕ, suc, ◌+◌, ◌<◌, List, [], ◌∷◌, ◌++◌, ◌≡◌, refl, ◌∙◌, Option, none, some, length, length-append,
  arith,
}
use sp_rtrace.Binary.Data.{Rd, Ftrace, Fcall, find_trace, share_trace, set_ftrace}
use sp_rtrace.Binary.Traces.{
  frames_at, InTable, Found, find_trace-Found, InTable-frames_at, frames_at-concat,
  frames_at-modify, length-modify, modify-concat,
}
use sp_rtrace.Binary.Calls.View.{Keeps}

-- The call gets a pointer to a trace with its frames, and no other call's frames change.
pub record HasTrace (rd : Rd) (cs : List Fcall) (c : Fcall) (frames : List ℕ) (q : Rd)
    : Type 0 where
  pub position : ℕ
  pub calls : q.calls ≡ cs ++ record c { trace = some position } ∷ []
  pub stored : frames_at q.ftraces (some position) ≡ some frames
  pub keeps : Keeps rd.ftraces q.ftraces
  pub hshake : q.hshake ≡ rd.hshake

length-concat : {A : Type 0} (xs : List A) (x : A) → length (xs ++ x ∷ []) ≡ suc (length xs)
length-concat xs x = omega (arith, length-append xs (x ∷ []))

InTable-grow :
    (us ts : List Ftrace) (o : Option ℕ) → length us < suc (length ts) → InTable us o → InTable ts o
InTable-grow us ts none h i = tt
InTable-grow us ts (some j) h i = omega arith

module _ (rd : Rd) (cs : List Fcall) (c : Fcall) (frames : List ℕ)
    (e : rd.calls ≡ cs ++ c ∷ []) where
  share_trace-HasTrace :
      (o : Option ℕ)
      → Found frames rd.ftraces o
      → HasTrace rd cs c frames (share_trace rd (length cs) frames o)
  unfolding share_trace
  share_trace-HasTrace none found = record {
    position = length rd.ftraces;
    calls = rw e (modify-concat _ cs c);
    stored = frames_at-concat rd.ftraces _;
    keeps = λ o i. (
      InTable-frames_at rd.ftraces _ o i,
      InTable-grow rd.ftraces _ o (omega (arith, length-concat rd.ftraces added)) i,
    );
    hshake = refl;
  }
    where
      added : Ftrace
      added = record { ref_count = 1; frames = frames; calls = length cs ∷ [] }
  share_trace-HasTrace (some j) found = record {
    position = j;
    calls = rw e (modify-concat _ cs c);
    stored = frames_at-modify rd.ftraces _ j (some j) (λ t. refl) ∙ found;
    keeps = λ o i. (
      frames_at-modify rd.ftraces _ j o (λ t. refl),
      InTable-grow rd.ftraces _ o (omega (arith, length-modify share rd.ftraces j)) i,
    );
    hshake = refl;
  }
    where
      share : Ftrace → Ftrace
      share t = record t { ref_count = t.ref_count + 1; calls = t.calls ++ length cs ∷ [] }

  -- For the call that was stored last, `rd_fcall_set_ftrace` makes it point to a trace with the
  -- given frames, a new one or a shared one; no other call changes, and every pointer into the
  -- table leads to the frames it led to before.
  pub set_ftrace-HasTrace : HasTrace rd cs c frames (set_ftrace rd (length cs) frames)
  unfolding set_ftrace
  set_ftrace-HasTrace =
      share_trace-HasTrace (find_trace frames rd.ftraces) (find_trace-Found frames rd.ftraces)
