-- ===== src/Tracer/Call/Depth.antt =====
-- The bounds of the backtrace that `sp_rtrace_write_function_call` takes itself.
use sp_rtrace.Prelude.{
  ℕ, ◌+◌, ◌-◌, ◌≤◌, List, [], ◌≡◌, subst, Option, none, some, ◌==◌, ltb, length, drop, length-take,
  if◌then◌else◌, Bool-cases, Option-cases, inl, inr, arith,
}
use sp_rtrace.Tracer.Call.{
  Fcall, Options, Outside, ask_depth, kept_frames, choose_trace, skip_top, max_frames,
}
use sp_rtrace.Tracer.Filter.{validate}

-- Within the depth of the options, and within the array that holds the frames.
pub record IsBounded (depth : ℕ) (frames : List ℕ) : Type 0 where
  pub within_depth : length frames ≤ depth
  pub within_array : length frames + skip_top ≤ max_frames

nil-IsBounded : (depth : ℕ) → IsBounded depth []
nil-IsBounded depth = record { within_depth = omega arith; within_array = omega arith }

ask_depth-le : (depth : ℕ) → ask_depth depth ≤ max_frames
unfolding ask_depth
ask_depth-le depth = ground arith

kept_frames-IsBounded :
    (depth : ℕ) (fs : List ℕ) → length fs ≤ max_frames → IsBounded depth (kept_frames depth fs)
unfolding kept_frames
kept_frames-IsBounded depth fs h =
    let n = length fs - 3 in
    let k = if ltb depth n then depth else n in
    let l : k ≤ depth = ground arith in
    let m : k ≤ n = ground arith in
    let e = length-take k (drop skip_top fs) in
    record { within_depth = omega (arith, e, l); within_array = omega (arith, e, m, h) }

some_inj : {fs gs : List ℕ} → Path (Option (List ℕ)) (some fs) (some gs) → fs ≡ gs
some_inj h = cc

-- If `backtrace` returns no more frames than it is asked for, the backtrace that a call takes
-- itself, where it comes to one, has at most the configured number of frames, and with the skipped
-- ones it stays within the array of 256.
pub choose_trace-IsBounded :
    (o : Options) (out : Outside) (call : Fcall) (frames : List ℕ)
    → ((depth : ℕ) → length (out.frames depth) ≤ depth)
    → choose_trace o out call none ≡ some frames
    → IsBounded o.backtrace_depth frames
unfolding choose_trace
choose_trace-IsBounded o out call frames few h = elim (Bool-cases (o.backtrace_depth == 0)) [
  | inl zero_depth ↦
      subst (IsBounded o.backtrace_depth) (some_inj (rw zero_depth at h))
        (nil-IsBounded o.backtrace_depth)
  | inr deep ↦ elim (Option-cases (validate o.filter call.type call.res_size)) [
    | inl fault ↦ (let bad = rw (deep, fault) at h in cc)
    | inr chosen ↦ elim (Bool-cases chosen.0) [
      | inl wanted ↦ elim (Bool-cases out.backtrace_lock) [
        | inl held ↦ (let bad = rw (deep, chosen.1, wanted, held) at h in cc)
        | inr free ↦
            subst (IsBounded o.backtrace_depth) (some_inj (rw (deep, chosen.1, wanted, free) at h))
              (kept_frames-IsBounded o.backtrace_depth _
                (omega (arith, few (ask_depth o.backtrace_depth), ask_depth-le o.backtrace_depth)))
      ]
      | inr skipped ↦
          subst (IsBounded o.backtrace_depth) (some_inj (rw (deep, chosen.1, skipped) at h))
            (nil-IsBounded o.backtrace_depth)
    ]
  ]
]
