-- ===== src/Binary/Data.antt =====
-- The resource trace data (src/common/rtrace_data.h) as the binary reader fills it. Records are
-- only appended while it runs, so a pointer to a call, a resource or a backtrace is its position.
use sp_rtrace.Prelude.{
  ℕ, zero, suc, ◌+◌, ◌/◌, ◌%◌, ◌^◌, Bool, true, false, List, [], ◌∷◌, ◌++◌, Option, none, some,
  bit_xor, ◌==◌, ◌&&◌, if◌then◌else◌, length,
}
use sp_rtrace.Proto.Memory.{Bytes}

pub record Hshake : Type 0 where
  pub vmajor : ℕ
  pub vminor : ℕ
  pub arch : Bytes
  pub endianness : ℕ
  pub pointer_size : ℕ

-- `backtrace_depth` is not set by protocols before 1.2.
pub record Pinfo : Type 0 where
  pub pid : ℕ
  pub sec : ℕ
  pub usec : ℕ
  pub backtrace_depth : Option ℕ
  pub name : Bytes

pub record Minfo : Type 0 where
  pub id : ℕ
  pub vmajor : ℕ
  pub vminor : ℕ
  pub name : Bytes

pub record Mmap : Type 0 where
  pub from : ℕ
  pub to : ℕ
  pub module_name : Bytes

pub record Context : Type 0 where
  pub id : ℕ
  pub name : Bytes

pub record Resource : Type 0 where
  pub id : ℕ
  pub type : Bytes
  pub desc : Bytes
  pub flags : ℕ
  pub hide : Bool

pub record Hinfo : Type 0 where
  pub heap_bottom : ℕ
  pub heap_top : ℕ
  pub lowest_block : ℕ
  pub highest_block : ℕ
  pub arena : ℕ
  pub ordblks : ℕ
  pub smblks : ℕ
  pub hblks : ℕ
  pub hblkhd : ℕ
  pub usmblks : ℕ
  pub fsmblks : ℕ
  pub uordblks : ℕ
  pub fordblks : ℕ
  pub keepcost : ℕ

pub record Attachment : Type 0 where
  pub name : Bytes
  pub path : Bytes

-- `res_type` is the position of the resource in the registry. `res_type_flag` is REF for every
-- stored call, so it has no field. An int is its bit pattern.
pub record Fcall : Type 0 where
  pub index : ℕ
  pub type : ℕ
  pub context : ℕ
  pub timestamp : ℕ
  pub name : Bytes
  pub res_type : Option ℕ
  pub res_id : ℕ
  pub res_size : ℕ
  pub trace : Option ℕ
  pub args : Option (List (Bytes × Bytes))

-- `calls` are the positions of the calls that share the backtrace.
pub record Ftrace : Type 0 where
  pub ref_count : ℕ
  pub frames : List ℕ
  pub calls : List ℕ

-- `ftraces` is the hash table's nodes in the order in which they were stored. A bucket holds the
-- nodes of one hash value, in that order.
pub record Rd : Type 0 where
  pub calls : List Fcall
  pub contexts : List Context
  pub ftraces : List Ftrace
  pub mmaps : List Mmap
  pub hshake : Hshake
  pub pinfo : Option Pinfo
  pub minfo : List Minfo
  pub hinfo : Option Hinfo
  pub resources : List Resource
  pub files : List Attachment

-- `r->field` written through a pointer.
unfoldable pub modify {ℓ} : {A : Type ℓ} → (A → A) → List A → ℕ → List A
modify f [] i = []
modify f (x ∷ xs) zero = f x ∷ xs
modify f (x ∷ xs) (suc i) = x ∷ modify f xs i

-- `while (value) { hash ^= value & 0xffff; value >>= 3; }`; a 64-bit value takes 22 rounds.
unfoldable pub hash_value : ℕ → ℕ → ℕ → ℕ
hash_value zero hash value = hash
hash_value (suc f) hash value =
    let rest = hash_value f (bit_xor hash (value % 2 ^ 16)) (value / 2 ^ 3) in
    if value == 0 then hash else rest

hash_frames : ℕ → List ℕ → ℕ
hash_frames hash [] = hash
hash_frames hash (f ∷ fs) = hash_frames (hash_value 22 hash f) fs

unfoldable pub bt_hash : List ℕ → ℕ
unfolding hash_frames hash_value
bt_hash = hash_frames 0

abbrev pub hash_size : ℕ
hash_size = 2 ^ 16

-- Whether `bt_compare` is 0: as many frames, and `memcmp` finds no difference.
unfoldable pub same_frames : List ℕ → List ℕ → Bool
same_frames [] [] = true
same_frames (f ∷ fs) (g ∷ gs) = f == g && same_frames fs gs
same_frames _ _ = false

-- The first node of the bucket that compares equal.
unfoldable pub find_trace : List ℕ → List Ftrace → Option ℕ
find_trace frames [] = none
find_trace frames (t ∷ ts) =
    if bt_hash t.frames % hash_size == bt_hash frames % hash_size && same_frames t.frames frames
    then some 0
    else elim (find_trace frames ts) [ none ↦ none | some j ↦ some (suc j) ]

-- A backtrace that is not in the table is stored there; one that is, is shared.
unfoldable pub share_trace : Rd → ℕ → List ℕ → Option ℕ → Rd
share_trace rd call frames none = record rd {
  ftraces = rd.ftraces ++ record { ref_count = 1; frames = frames; calls = call ∷ [] } ∷ [];
  calls = modify (λ c. record c { trace = some (length rd.ftraces) }) rd.calls call;
}
share_trace rd call frames (some j) = record rd {
  ftraces =
      modify (λ t. record t { ref_count = t.ref_count + 1; calls = t.calls ++ call ∷ [] })
        rd.ftraces j;
  calls = modify (λ c. record c { trace = some j }) rd.calls call;
}

-- `rd_fcall_set_ftrace`
unfoldable pub set_ftrace : Rd → ℕ → List ℕ → Rd
set_ftrace rd call frames = share_trace rd call frames (find_trace frames rd.ftraces)
