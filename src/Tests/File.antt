-- ===== src/Tests/File.antt =====
-- A short run of the file functions, and the trace that the post-processor has of it.
use sp_rtrace.Prelude.{
  ℕ, zero, suc, true, false, List, [], ◌∷◌, ◌≡◌, refl, none, some, map, arith, All,
}
use sp_rtrace.Prelude.Print.{codes}
use sp_rtrace.Binary.Data.{Fcall, Resource}
use sp_rtrace.Postproc.Leaks.{Node, filter_leaks}
use sp_rtrace.Postproc.Leaks.Keys.{Distinct, IsPlain}
use sp_rtrace.Postproc.Leaks.Result.{Leaves}
use sp_rtrace.Modules.Held.{release, is_held}
use sp_rtrace.Modules.File.State.{FdType, Files, Ids, set_fd, get_fd}
use sp_rtrace.Modules.File.Common.{
  af_unix, trace_open_common, trace_dup_common, trace_socket_common, trace_bind_common,
  trace_accept_common, trace_fopen_common, trace_fclose_common,
}
use sp_rtrace.Modules.File.Trace
use sp_rtrace.Modules.File.Calls.{
  Use, open_path, close, dup2, fcntl, socket, bind, accept, fdopen, fclose, reports, reports_all,
}
use sp_rtrace.Modules.File.Live.{
  effects, after, is_granted, opened_all, grants_all, is_told, all_told,
}
use sp_rtrace.Modules.File.Told.{action_of, tracing}
use sp_rtrace.Modules.File.Kinds.{
  IsTyped, kinds_after, kinds_all, is_typed, all_typed, reports_all-IsTyped,
}
use sp_rtrace.Modules.File.Report.{stored_action, handle_of, filter_leaks-opened_all}

abbrev ids : Ids
ids = record { res_fd = 2; res_fp = 3 }

abbrev start : Files
start = record { rt_fds = λ i. FdType.unknown; last_sock_fd = 0xffffffff; last_sock_info = [] }

abbrev uses : List Use
uses =
    open_path (codes "/etc/motd") 0 3
    ∷ dup2 3 9 9
    ∷ close 3 0
    ∷ fcntl 9 0 10 10
    ∷ socket 1 1 0 3
    ∷ bind 3 (af_unix (codes "/run/a")) 9 0
    ∷ accept 3 4
    ∷ fdopen 9 (codes "r") 7000
    ∷ fclose 7000 0
    ∷ []

abbrev types : List Resource
types =
    record { id = 2; type = codes "fd"; desc = []; flags = 0; hide = false }
    ∷ record { id = 3; type = codes "fp"; desc = []; flags = 0; hide = false }
    ∷ []

abbrev stored : ℕ → ℕ → ℕ → Fcall
stored type position res_id = record {
  index = 0;
  type = type;
  context = 0;
  timestamp = 0;
  name = [];
  res_type = some position;
  res_id = res_id;
  res_size = 1;
  trace = none;
  args = none;
}

abbrev trace : List Fcall
trace =
    stored 2 0 3
    ∷ stored 1 0 9
    ∷ stored 2 0 9
    ∷ stored 1 0 3
    ∷ stored 1 0 10
    ∷ stored 2 0 10
    ∷ stored 2 0 3
    ∷ stored 1 0 3
    ∷ stored 2 0 3
    ∷ stored 2 0 4
    ∷ stored 1 0 9
    ∷ stored 2 1 7000
    ∷ stored 1 1 7000
    ∷ []

types-Distinct : Distinct types
types-Distinct zero zero x y p q e = refl
types-Distinct zero (suc zero) x y p q e = absurd (ground (arith, p, q, e))
types-Distinct zero (suc (suc j)) x y p q e = cc
types-Distinct (suc zero) zero x y p q e = absurd (ground (arith, p, q, e))
types-Distinct (suc zero) (suc zero) x y p q e = refl
types-Distinct (suc zero) (suc (suc j)) x y p q e = cc
types-Distinct (suc (suc i)) j x y p q e = cc

abbrev plain_fd : (type res_id : ℕ) → IsPlain types (stored type 0 res_id)
plain_fd type res_id = record {
  position = 0;
  resource = _;
  typed = refl;
  stored = refl;
  plain = refl;
}

abbrev plain_fp : (type res_id : ℕ) → IsPlain types (stored type 1 res_id)
plain_fp type res_id = record {
  position = 1;
  resource = _;
  typed = refl;
  stored = refl;
  plain = refl;
}

trace-IsPlain : All (IsPlain types) trace
trace-IsPlain = (
  plain_fd 2 3,
  (
    plain_fd 1 9,
    (
      plain_fd 2 9,
      (
        plain_fd 1 3,
        (
          plain_fd 1 10,
          (
            plain_fd 2 10,
            (
              plain_fd 2 3,
              (
                plain_fd 1 3,
                (
                  plain_fd 2 3,
                  (plain_fd 2 4, (plain_fd 1 9, (plain_fp 2 7000, (plain_fp 1 7000, tt)))),
                ),
              ),
            ),
          ),
        ),
      ),
    ),
  ),
)

reported : map (stored_action types) trace ≡ map action_of (reports_all ids tracing uses start).1
unfolding reports_all reports trace_open_common trace_dup_common trace_socket_common
    trace_bind_common trace_accept_common trace_fopen_common trace_fclose_common set_fd get_fd
    Trace.trace_open Trace.trace_dup2 Trace.trace_close Trace.trace_fcntl Trace.trace_socket
    Trace.trace_bind Trace.trace_accept Trace.trace_fdopen Trace.trace_fclose
reported = refl

granted : grants_all ids uses [] ≡ true
unfolding grants_all effects after is_granted is_held release
granted = refl

told : all_told uses ≡ true
unfolding all_told is_told
told = refl

filter_leaks-opened_all_example :
    (nodes : List Node) × Leaves (filter_leaks types trace) nodes
    × (map (handle_of types) nodes ≡ opened_all ids uses [])
filter_leaks-opened_all_example =
    filter_leaks-opened_all types trace ids uses start types-Distinct trace-IsPlain reported told
      granted

opened_after : opened_all ids uses [] ≡ (2, 10) ∷ (2, 3) ∷ (2, 4) ∷ []
unfolding opened_all effects after release
opened_after = refl

typed : all_typed uses ≡ true
unfolding all_typed is_typed
typed = refl

reports_all-IsTyped_example :
    IsTyped (kinds_all uses (λ i. none)) (reports_all ids tracing uses start).0
reports_all-IsTyped_example =
    reports_all-IsTyped ids uses (λ i. none) start typed (λ i t low high h. cc h)

kind_after : kinds_all uses (λ i. none) 10 ≡ some FdType.file
unfolding kinds_all kinds_after
kind_after = refl

-- The close of descriptor 3 is kept for descriptor 0.
zero_closed : (reports ids tracing (close 3 0) start).0.rt_fds 0 ≡ FdType.closed
unfolding reports Trace.trace_close set_fd
zero_closed = refl
