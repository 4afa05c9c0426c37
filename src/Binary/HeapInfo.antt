-- ===== src/Binary/HeapInfo.antt =====
-- The heap information packet: the tracing module writes the two bounds of the heap in four bytes
-- each, and `read_packet_HI` reads them in eight.
use sp_rtrace.Prelude.{
  ℕ, ◌+◌, ◌*◌, ◌%◌, ◌^◌, ◌++◌, ◌≡◌, refl, sym, ap, ◌∙◌, append-nil, none, some, append_assoc, [],
}
use sp_rtrace.Proto.Memory.{Bytes}
use sp_rtrace.Proto.Encode.{dword}
use sp_rtrace.Proto.Read.{read_pointer, read_dword, read_word, read_byte}
use sp_rtrace.Proto.RoundTrip.{read_dword-dword}
use sp_rtrace.Tracer.Packet.Emits.{Emits}
use sp_rtrace.Tracer.Events.{Heap, heap_body}
use sp_rtrace.Tracer.Events.Encoded.{heap_bytes, heap_body-Emits}
use sp_rtrace.Binary.Data.{Hinfo}
use sp_rtrace.Binary.Packets.{read_hinfo}

-- Two neighbours are taken for one pointer.
read_pointer-dword :
    (a b : ℕ) (rest : Bytes)
    → read_pointer (dword a ++ (dword b ++ rest)) ≡ some (a % 2 ^ 32 + 2 ^ 32 * (b % 2 ^ 32), rest)
unfolding read_pointer
read_pointer-dword a b rest = simp read_dword-dword

ruleset reads = (append_assoc, read_dword-dword, read_pointer-dword)

-- What the reader makes of a heap packet and the eight bytes `x` and `y` behind it.
abbrev pub misread : Heap → ℕ → ℕ → Hinfo
misread h x y = record {
  heap_bottom = h.bottom % 2 ^ 32 + 2 ^ 32 * (h.end % 2 ^ 32);
  heap_top = h.arena % 2 ^ 32 + 2 ^ 32 * (h.ordblks % 2 ^ 32);
  lowest_block = 0;
  highest_block = 0;
  arena = h.smblks % 2 ^ 32;
  ordblks = h.hblks % 2 ^ 32;
  smblks = h.hblkhd % 2 ^ 32;
  hblks = h.usmblks % 2 ^ 32;
  hblkhd = h.fsmblks % 2 ^ 32;
  usmblks = h.uordblks % 2 ^ 32;
  fsmblks = h.fordblks % 2 ^ 32;
  uordblks = h.keepcost % 2 ^ 32;
  fordblks = x % 2 ^ 32;
  keepcost = y % 2 ^ 32;
}

read_hinfo-misread :
    (h : Heap) (x y : ℕ) (rest : Bytes)
    → read_hinfo (heap_bytes h ++ (dword x ++ (dword y ++ rest))) ≡ some (misread h x y, rest)
unfolding read_hinfo heap_bytes
read_hinfo-misread h x y rest = simp reads

read_dword-nil : read_dword [] ≡ none
unfolding read_dword read_word read_byte
read_dword-nil = refl

-- At the end of the data the reader runs past it.
read_hinfo_past_end : (h : Heap) → read_hinfo (heap_bytes h ++ []) ≡ none
unfolding read_hinfo heap_bytes
read_hinfo_past_end h = simp (reads, read_dword-nil)

-- No heap packet that the tracing module writes is read as it was written: its bytes alone, as
-- they stand at the end of the stream, are too few for the reader, which runs past them; with
-- eight bytes behind them both bounds of the heap end up in the lower one, `arena` and `ordblks`
-- become the upper one, each of the further fields takes the value of the one two places behind
-- it, and the last two are those eight bytes.
pub read_hinfo-heap_body :
    (h : Heap)
    → (bs : Bytes) × Emits (heap_body h) bs
      × (read_hinfo bs ≡ none)
      × ((x y : ℕ) (rest : Bytes)
          → read_hinfo (bs ++ (dword x ++ (dword y ++ rest))) ≡ some (misread h x y, rest))
read_hinfo-heap_body h = (
  heap_bytes h,
  heap_body-Emits h,
  ap read_hinfo (sym (append-nil (heap_bytes h))) ∙ read_hinfo_past_end h,
  read_hinfo-misread h,
)
