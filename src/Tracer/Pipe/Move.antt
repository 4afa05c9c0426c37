-- ===== src/Tracer/Pipe/Move.antt =====
-- The loop that moves the last packet to the front of the buffer.
use sp_rtrace.Prelude.{ℕ, zero, suc, ◌+◌, ◌≤◌, ◌<◌, ◌∷◌, ◌≡◌, refl, ap₂, ◌∙◌, arith}
use sp_rtrace.Proto.Memory.{Mem, update, slice, slice_congr}
use sp_rtrace.Tracer.Pipe.{move}

move_below : (n : ℕ) (m : Mem) (head ptr a : ℕ) → a < head → move n m head ptr a ≡ m a
unfolding move
move_below zero m head ptr a h = refl
move_below (suc n) m head ptr a h =
    move_below n (update m head (m ptr)) (head + 1) (ptr + 1) a (omega arith) ∙ ground arith

-- The byte by byte copy moves `n` bytes unchanged to a place that is not above theirs, overlap or
-- not.
pub slice-move :
    (n : ℕ) (m : Mem) (head ptr : ℕ) → head ≤ ptr → slice (move n m head ptr) head n ≡ slice m ptr n
unfolding move slice
slice-move zero m head ptr h = refl
slice-move (suc n) m head ptr h =
    ap₂ ◌∷◌
      (move_below n (update m head (m ptr)) (head + 1) (ptr + 1) head (omega arith) ∙ ground arith)
      (slice-move n (update m head (m ptr)) (head + 1) (ptr + 1) (omega arith)
        ∙ slice_congr _ _ (ptr + 1) n (λ a l u. ground arith))
