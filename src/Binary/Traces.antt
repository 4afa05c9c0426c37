-- ===== src/Binary/Traces.antt =====
-- The table of backtraces while calls are added: a call keeps its frames.
use sp_rtrace.Prelude.{
  ℕ, zero, suc, ◌%◌, ◌<◌, true, List, [], ◌∷◌, ◌++◌, ◌≡◌, refl, ap, ◌∙◌, Option, none, some, ◌==◌,
  ◌&&◌, length, length-map, arith, map, get_elem?, Bool-cases, inl, inr,
}
use mathlib.Core.List.{map-append}
use sp_rtrace.Binary.Data.{Ftrace, modify, same_frames, find_trace, bt_hash, hash_size}

pub modify-concat {ℓ} :
    {A : Type ℓ} (f : A → A) (xs : List A) (x : A)
    → modify f (xs ++ x ∷ []) (length xs) ≡ xs ++ f x ∷ []
unfolding modify
modify-concat f [] x = refl
modify-concat f (y ∷ xs) x = ap (◌∷◌ y) (modify-concat f xs x)

-- A change that a function of the elements does not see.
pub map-modify {ℓ κ} :
    {A : Type ℓ} {B : Type κ} (g : A → B) (f : A → A) (xs : List A) (i : ℕ)
    → ((x : A) → g (f x) ≡ g x)
    → map g (modify f xs i) ≡ map g xs
unfolding modify
map-modify g f [] i h = refl
map-modify g f (x ∷ xs) zero h = ap (λ y. y ∷ map g xs) (h x)
map-modify g f (x ∷ xs) (suc i) h = ap (◌∷◌ (g x)) (map-modify g f xs i h)

pub get_elem?-append_left {ℓ} :
    {A : Type ℓ} (xs ys : List A) (i : ℕ) → i < length xs → get_elem? (xs ++ ys) i ≡ get_elem? xs i
get_elem?-append_left [] ys i h = absurd (omega arith)
get_elem?-append_left (x ∷ xs) ys zero h = refl
get_elem?-append_left (x ∷ xs) ys (suc i) h = get_elem?-append_left xs ys i (omega arith)

pub get_elem?-concat {ℓ} :
    {A : Type ℓ} (xs : List A) (x : A) → get_elem? (xs ++ x ∷ []) (length xs) ≡ some x
get_elem?-concat [] x = refl
get_elem?-concat (y ∷ xs) x = get_elem?-concat xs x

same_frames-eq : (fs gs : List ℕ) → same_frames fs gs ≡ true → fs ≡ gs
unfolding same_frames
same_frames-eq [] [] h = refl
same_frames-eq [] (g ∷ gs) h = cc
same_frames-eq (f ∷ fs) [] h = cc
same_frames-eq (f ∷ fs) (g ∷ gs) h = ground (arith, same_frames-eq fs gs)

abbrev pub frames_of : List Ftrace → List (List ℕ)
frames_of = map (λ t. t.frames)

-- A position that is found holds the frames that were looked for.
abbrev pub Found : List ℕ → List Ftrace → Option ℕ → Type 0
Found frames ts none = Unit
Found frames ts (some j) = get_elem? (frames_of ts) j ≡ some frames

find_trace-behind :
    (frames : List ℕ) (t : Ftrace) (ts : List Ftrace) (o : Option ℕ)
    → Found frames ts o
    → Found frames (t ∷ ts) (elim o [ none ↦ none | some j ↦ some (suc j) ])
find_trace-behind frames t ts none h = tt
find_trace-behind frames t ts (some j) h = h

pub find_trace-Found : (frames : List ℕ) (ts : List Ftrace) → Found frames ts (find_trace frames ts)
unfolding find_trace
find_trace-Found frames [] = tt
find_trace-Found frames (t ∷ ts) =
    let same =
      bt_hash t.frames % hash_size == bt_hash frames % hash_size && same_frames t.frames frames in
    elim (Bool-cases same) [
      | inl hit ↦ rw hit (ap some (same_frames-eq t.frames frames (ground arith)))
      | inr miss ↦
          rw miss
            (find_trace-behind frames t ts (find_trace frames ts) (find_trace-Found frames ts))
    ]

-- The frames of the trace that a call points to.
abbrev pub frames_at : List Ftrace → Option ℕ → Option (List ℕ)
frames_at ts none = none
frames_at ts (some j) = get_elem? (frames_of ts) j

-- A pointer that leads to no trace outside the table.
abbrev pub InTable : List Ftrace → Option ℕ → Type 0
InTable ts none = Unit
InTable ts (some j) = j < length ts

pub InTable-frames_at :
    (ts : List Ftrace) (t : Ftrace) (o : Option ℕ)
    → InTable ts o
    → frames_at (ts ++ t ∷ []) o ≡ frames_at ts o
InTable-frames_at ts t none h = refl
InTable-frames_at ts t (some j) h =
    ap (λ l. get_elem? l j) (map-append (λ (t : Ftrace). t.frames) ts (t ∷ []))
    ∙ get_elem?-append_left (frames_of ts) (t.frames ∷ []) j
        (omega (arith, length-map ts (λ (t : Ftrace). t.frames)))

pub frames_at-concat :
    (ts : List Ftrace) (t : Ftrace) → frames_at (ts ++ t ∷ []) (some (length ts)) ≡ some t.frames
frames_at-concat [] t = refl
frames_at-concat (u ∷ ts) t = frames_at-concat ts t

pub frames_at-modify :
    (ts : List Ftrace) (f : Ftrace → Ftrace) (i : ℕ) (o : Option ℕ)
    → ((t : Ftrace) → (f t).frames ≡ t.frames)
    → frames_at (modify f ts i) o ≡ frames_at ts o
frames_at-modify ts f i none h = refl
frames_at-modify ts f i (some j) h =
    ap (λ l. get_elem? l j) (map-modify (λ (t : Ftrace). t.frames) f ts i h)

pub length-modify {ℓ} :
    {A : Type ℓ} (f : A → A) (xs : List A) (i : ℕ) → length (modify f xs i) ≡ length xs
unfolding modify
length-modify f [] i = refl
length-modify f (x ∷ xs) zero = refl
length-modify f (x ∷ xs) (suc i) = ap suc (length-modify f xs i)

pub get_elem?-some-lt {ℓ} :
    {A : Type ℓ} (xs : List A) (i : ℕ) {a : A} → get_elem? xs i ≡ some a → i < length xs
get_elem?-some-lt [] i h = cc
get_elem?-some-lt (x ∷ xs) zero h = omega arith
get_elem?-some-lt (x ∷ xs) (suc i) h = omega (arith, get_elem?-some-lt xs i h)
