-- ===== src/Rtrace/Listener/Maps.antt =====
-- The memory mappings that `scan_mmap_data` of src/rtrace/listener.c keeps.
use sp_rtrace.Prelude.{
  ℕ, Bool, true, false, List, [], ◌∷◌, ◌++◌, Option, none, some, ltb, ◌==◌, ◌&&◌, not,
  if◌then◌else◌,
}
use sp_rtrace.Proto.Memory.{Bytes}
use sp_rtrace.Proto.Encode.{qword, string}
use sp_rtrace.Proto.Types.{memory_map}
use sp_rtrace.Tracer.Packet.Emits.{framed}

pub record Mapping : Type 0 where
  pub from : ℕ
  pub to : ℕ
  pub name : Bytes

-- A line of the maps file with all seven fields, as `sscanf` stores them; `text` is the last one,
-- with the end of the line.
pub record Line : Type 0 where
  pub from : ℕ
  pub to : ℕ
  pub rights : Bytes
  pub text : Bytes

-- The third right.
abbrev pub executable : Line → Bool
executable l = third l.rights
  where
    third : Bytes → Bool
    third (a ∷ b ∷ c ∷ d) = c == b'x'
    third _ = false

-- Without the last character.
abbrev pub cut_last : Bytes → Bytes
cut_last [] = []
cut_last (a ∷ []) = []
cut_last (a ∷ b ∷ s) = a ∷ cut_last (b ∷ s)

abbrev pub mapping_of : Line → Mapping
mapping_of l = record { from = l.from; to = l.to; name = cut_last l.text }

-- Whether `range_compare` is 0.
abbrev pub overlaps : Mapping → Mapping → Bool
overlaps m x = not (ltb m.to x.from) && not (ltb x.to m.from)

-- `dlist_find`
unfoldable pub find_mmap : Mapping → List Mapping → Option Mapping
find_mmap x [] = none
find_mmap x (m ∷ ms) = let rest = find_mmap x ms in if overlaps m x then some m else rest

-- Without the mapping that is found.
unfoldable pub remove_mmap : Mapping → List Mapping → List Mapping
remove_mmap x [] = []
remove_mmap x (m ∷ ms) = let rest = remove_mmap x ms in if overlaps m x then ms else m ∷ rest

-- `strcmp` is 0.
unfoldable pub same_name : Bytes → Bytes → Bool
same_name [] [] = true
same_name (a ∷ s) (b ∷ t) = a == b && same_name s t
same_name _ _ = false

abbrev pub same_mmap : Mapping → Mapping → Bool
same_mmap m x = same_name m.name x.name && m.from == x.from && m.to == x.to

abbrev pub mmap_packet : Mapping → Bytes
mmap_packet m = framed memory_map (qword m.from ++ (qword m.to ++ string (some m.name)))
