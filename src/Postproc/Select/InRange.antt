-- ===== src/Postproc/Select/InRange.antt =====
-- The filter by a range of code addresses, whose target is found among the modules.
use sp_rtrace.Prelude.{
  ℕ, ◌+◌, ◌%◌, ◌^◌, ◌≤◌, ◌<◌, true, false, List, [], ◌∷◌, ◌++◌, ◌≡◌, ◌⊎◌, Option, none, some, All,
}
use sp_rtrace.Binary.Data.{Fcall, Mmap, Ftrace}
use sp_rtrace.Postproc.Select.{Range, trace_at}

-- A call whose backtrace is in the table.
pub record IsTraced (ts : List Ftrace) (c : Fcall) : Type 0 where
  pub trace : Ftrace
  pub stored : trace_at ts c.trace ≡ some trace

-- One of the frames is an address from `start` on and below `end`.
abbrev pub Meets : ℕ → ℕ → List ℕ → Type 0
Meets start end [] = ⊥
Meets start end (f ∷ fs) = ((start ≤ f) × (f < end)) ⊎ Meets start end fs

-- The first module that is a target, with what is in front of it, and where the range starts.
pub record IsTarget (r : Range) (ms : List Mmap) (start : ℕ) : Type 0 where
  pub before : List Mmap
  pub target : Mmap
  pub after : List Mmap
  pub split : ms ≡ before ++ target ∷ after
  pub first : All (λ m. r.targets m.module_name ≡ false) before
  pub is_target : r.targets target.module_name ≡ true
  pub of_absolute : r.absolute target.module_name ≡ true → start ≡ r.start
  pub of_relative : r.absolute target.module_name ≡ false → start ≡ (r.start + target.from) % 2 ^ 64

abbrev frames_of : Option Ftrace → List ℕ
frames_of none = []
frames_of (some t) = t.frames
