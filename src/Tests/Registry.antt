-- ===== src/Tests/Registry.antt =====
-- The registry of resource types, decimal numbers, the depth of a backtrace and the leaks of a
-- short trace.
use sp_rtrace.Prelude.{◌++◌, ◌≤◌, length}
use sp_rtrace.Binary.Data.{Hinfo}
use sp_rtrace.Postproc.Blocks.{filter_find_lowhigh_blocks, highest_address}
use sp_rtrace.Postproc.Blocks.Range.{blocks, least, greatest, filter_find_lowhigh_blocks-range}
use sp_rtrace.Tests.{malloc}
use sp_rtrace.Tracer.Decimal.{itoa, atoi, digits, copy_back}
use sp_rtrace.Tracer.Decimal.RoundTrip.{ends_number, atoi-itoa}
use sp_rtrace.Tracer.Filter.{validate}
use sp_rtrace.Tracer.Call.{Options, Outside, choose_trace, ask_depth, kept_frames}
use sp_rtrace.Tracer.Call.Depth.{IsBounded, choose_trace-IsBounded}
use sp_rtrace.Prelude.{ℕ, zero, suc, true, false, ◌≡◌, refl, List, [], ◌∷◌, some, none, arith}
use sp_rtrace.Tests.{ready_pipe}
use sp_rtrace.Tracer.Pipe.Stream.{IsReady}
use sp_rtrace.Tracer.Events.{Resource}
use sp_rtrace.Tracer.Register.{register_resource}
use sp_rtrace.Tracer.Register.Ids.{IsRegistry, Registered, register_resource-Registered}
use sp_rtrace.Binary.Data
use sp_rtrace.Binary.Data.{Fcall}
use sp_rtrace.Postproc.Leaks.{filter_leaks}
use sp_rtrace.Postproc.Leaks.Keys.{Distinct, IsPlain}
use sp_rtrace.Postproc.Leaks.Pending.{leaks, freed_later}
use sp_rtrace.Postproc.Leaks.Keys.{same_key}
use sp_rtrace.Postproc.Leaks.Result.{Leaves, filter_leaks-leaks}

abbrev memory : Resource
memory = record { id = 0; type = some (b'm' ∷ []); desc = some (b'd' ∷ []); flags = 0 }

no_types-IsRegistry : IsRegistry []
no_types-IsRegistry = record { ids = tt; small = omega arith }

ready_pipe-IsReady : IsReady ready_pipe
ready_pipe-IsReady = record { unlocked = refl; below = omega arith }

register_resource-Registered_example :
    Registered memory [] (register_resource memory true [] ready_pipe)
register_resource-Registered_example =
    register_resource-Registered memory [] ready_pipe no_types-IsRegistry (b'm' ∷ [], refl)
      ready_pipe-IsReady

abbrev pub types : List Data.Resource
types = record { id = 1; type = b'm' ∷ []; desc = []; flags = 0; hide = false } ∷ []

abbrev call : ℕ → ℕ → ℕ → Fcall
call index type res_id = record {
  index = index;
  type = type;
  context = 0;
  timestamp = 0;
  name = [];
  res_type = some 0;
  res_id = res_id;
  res_size = 8;
  trace = none;
  args = none;
}

-- Two blocks are allocated, the first one is freed.
abbrev trace : List Fcall
trace = call 1 2 100 ∷ call 2 2 200 ∷ call 3 1 100 ∷ []

leaks_test : leaks 0 trace ≡ (1, call 2 2 200) ∷ []
unfolding leaks freed_later same_key
leaks_test = refl

pub types-Distinct : Distinct types
types-Distinct zero zero x y h k e = refl
types-Distinct zero (suc j) x y h k e = cc
types-Distinct (suc i) zero x y h k e = cc
types-Distinct (suc i) (suc j) x y h k e = cc

abbrev plain_call : (index type res_id : ℕ) → IsPlain types (call index type res_id)
plain_call index type res_id = record {
  position = 0;
  resource = _;
  typed = refl;
  stored = refl;
  plain = refl;
}

filter_leaks-leaks_example : Leaves (filter_leaks types trace) (leaks 0 trace)
filter_leaks-leaks_example =
    filter_leaks-leaks types trace types-Distinct
      (plain_call 1 2 100, (plain_call 2 2 200, (plain_call 3 1 100, tt)))

itoa_test : itoa 120 ≡ b'1' ∷ b'2' ∷ b'0' ∷ []
unfolding itoa digits copy_back
itoa_test = refl

comma_ends : ends_number (b',' ∷ []) ≡ true
unfolding ends_number
comma_ends = refl

atoi-itoa_example : atoi (itoa 120 ++ b',' ∷ []) ≡ 120
atoi-itoa_example = atoi-itoa 120 (b',' ∷ []) (omega arith) comma_ends

abbrev counting : ℕ → List ℕ
counting zero = []
counting (suc n) = n ∷ counting n

counting-le : (n : ℕ) → length (counting n) ≤ n
counting-le zero = omega arith
counting-le (suc n) = omega (arith, counting-le n)

abbrev shallow : Options
shallow = record {
  backtrace_depth = 2;
  enable_timestamps = false;
  filter = record { type = 3; size_set = none };
}

abbrev deep_stack : Outside
deep_stack = record { frames = counting; call_context = 0; clock = none; backtrace_lock = false }

chosen_frames : choose_trace shallow deep_stack malloc none ≡ some (1 ∷ 0 ∷ [])
unfolding choose_trace validate ask_depth kept_frames
chosen_frames = refl

choose_trace-IsBounded_example : IsBounded 2 (1 ∷ 0 ∷ [])
choose_trace-IsBounded_example =
    choose_trace-IsBounded shallow deep_stack malloc (1 ∷ 0 ∷ []) counting-le chosen_frames

abbrev no_heap : Hinfo
no_heap = record {
  heap_bottom = 0;
  heap_top = 0;
  lowest_block = 0;
  highest_block = 0;
  arena = 0;
  ordblks = 0;
  smblks = 0;
  hblks = 0;
  hblkhd = 0;
  usmblks = 0;
  fsmblks = 0;
  uordblks = 0;
  fordblks = 0;
  keepcost = 0;
}

blocks_test : least highest_address (blocks trace) ≡ 100
unfolding blocks least
blocks_test = refl

filter_find_lowhigh_blocks-range_example :
    filter_find_lowhigh_blocks trace (some no_heap)
    ≡ some (record no_heap {
      lowest_block = least highest_address (blocks trace);
      highest_block = greatest 0 (blocks trace);
    })
filter_find_lowhigh_blocks-range_example = filter_find_lowhigh_blocks-range trace no_heap
