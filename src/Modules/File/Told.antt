-- ===== src/Modules/File/Told.antt =====
-- What is reported of descriptors and streams tells exactly which are open.
use sp_rtrace.Prelude.{
  both_true, ℕ, ◌%◌, ◌^◌, Bool, true, false, List, [], ◌∷◌, ◌++◌, ◌≡◌, refl, ap, ap₂, ◌∙◌, not,
  ◌&&◌, ◌||◌, ◌==◌, map, arith, inl, inr, Bool-cases,
}
use mathlib.Core.List.{map-append}
use sp_rtrace.Postproc.Leaks.{type_alloc, type_free}
use sp_rtrace.Modules.Held.{
  Action, release, is_held, told, told-append, fresh, fresh-append, release_absent,
}
use sp_rtrace.Modules.File.State.{Files, Ids, Written, failed, is_negative}
use sp_rtrace.Modules.File.Common.{
  trace_open_common, trace_dup_common, trace_socket_common, trace_bind_common, trace_accept_common,
  trace_fd_common, trace_fd_common_flags, trace_fopen_common, trace_fclose_common,
}
use sp_rtrace.Modules.File.Trace
use sp_rtrace.Modules.File.Calls.{
  Mode, Use, creat, open_path, open64, openat, close, dup, dup2, dup3, fcntl, socket, socketpair,
  bind, connect, accept, accept4, inotify_init, inotify_init1, eventfd, signalfd, timerfd_create,
  epoll_create, epoll_create1, getpt, posix_openpt, pipe, pipe2, fopen, fdopen, freopen, popen,
  pclose, fclose, fcloseall, reports, reports_all,
}
use sp_rtrace.Modules.File.Live.{
  Key, same, Effect, opens, closes, closes_all, after, is_granted, effects, opened_all, grants_all,
  is_told, all_told, fd_key,
}

abbrev pub action_of : Written → Action Key
action_of (c, args) = (c.type, (c.res_type_id, c.res_id))

abbrev pub tracing : Mode
tracing = record { tracing = true; backtrace_lock = false }

abbrev actions : Ids → Use → Files → List (Action Key)
actions ids u s = map action_of (reports ids tracing u s).1

-- The reports of one call tell what it does, and none opens what is open.
record Tells (acts : List (Action Key)) (es : List Effect) (live : List Key) : Type 0 where
  same_after : told same acts live ≡ after es live
  new : fresh same acts live ≡ true

unfoldable as_actions : List Effect → List (Action Key)
as_actions [] = []
as_actions (opens key ∷ es) = (type_alloc, key) ∷ as_actions es
as_actions (closes key ∷ es) = (type_free, key) ∷ as_actions es
as_actions (closes_all type ∷ es) = as_actions es

unfoldable is_single : List Effect → Bool
is_single [] = true
is_single (opens key ∷ es) = is_single es
is_single (closes key ∷ es) = is_single es
is_single (closes_all type ∷ es) = false

as_actions-Tells :
    (es : List Effect) (live : List Key)
    → is_single es ≡ true
    → is_granted es live ≡ true
    → Tells (as_actions es) es live
unfolding as_actions is_single is_granted told after fresh
as_actions-Tells [] live h g = record { same_after = refl; new = refl }
as_actions-Tells (opens key ∷ es) live h g =
    let rest = as_actions-Tells es (live ++ key ∷ []) h (ground arith) in
    record { same_after = rest.same_after; new = ground (arith, rest.new) }
as_actions-Tells (closes key ∷ es) live h g =
    let rest = as_actions-Tells es (release same key live) h g in
    record { same_after = rest.same_after; new = ground (arith, rest.new) }
as_actions-Tells (closes_all type ∷ es) live h g = cc

-- `fcntl` may also report the freeing of its argument.
unfoldable is_plain : Use → Bool
is_plain (fcntl fd cmd newfd rc) = false
is_plain u = true

-- Where the reports are no more than what is opened and closed.
as_reported :
    (ids : Ids) (u : Use) (s : Files)
    → is_told u ≡ true
    → is_plain u ≡ true
    → (actions ids u s ≡ as_actions (effects ids u)) × (is_single (effects ids u) ≡ true)
unfolding reports effects as_actions is_single is_told is_plain trace_open_common trace_dup_common
    trace_socket_common trace_bind_common trace_accept_common trace_fd_common trace_fd_common_flags
    trace_fopen_common trace_fclose_common Trace.trace_creat Trace.trace_open Trace.trace_open64
    Trace.trace_openat Trace.trace_close Trace.trace_dup Trace.trace_dup2 Trace.trace_dup3
    Trace.trace_fcntl Trace.trace_socket Trace.trace_socketpair Trace.trace_bind Trace.trace_connect
    Trace.trace_accept Trace.trace_accept4 Trace.trace_inotify_init Trace.trace_inotify_init1
    Trace.trace_eventfd Trace.trace_signalfd Trace.trace_timerfd_create Trace.trace_epoll_create
    Trace.trace_epoll_create1 Trace.trace_getpt Trace.trace_posix_openpt Trace.trace_pipe
    Trace.trace_pipe2 Trace.trace_fopen Trace.trace_fdopen Trace.trace_freopen Trace.trace_popen
    Trace.trace_pclose Trace.trace_fclose Trace.trace_fcloseall
as_reported ids (creat pathname mode rc) s h p = ground arith
as_reported ids (open_path pathname flags rc) s h p = ground arith
as_reported ids (open64 pathname flags rc) s h p = ground arith
as_reported ids (openat pathname flags rc) s h p = ground arith
as_reported ids (close fd rc) s h p = ground arith
as_reported ids (dup oldfd rc) s h p = ground arith
as_reported ids (dup2 oldfd newfd rc) s h p = ground arith
as_reported ids (dup3 oldfd newfd rc) s h p = ground arith
as_reported ids (fcntl fd cmd newfd rc) s h p = ground arith
as_reported ids (socket domain type protocol rc) s h p = ground arith
as_reported ids (socketpair domain type protocol sv rc) s h p = ground arith
as_reported ids (bind sockfd addr addrlen rc) s h p = ground arith
as_reported ids (connect sockfd addr addrlen rc) s h p = ground arith
as_reported ids (accept sockfd rc) s h p = ground arith
as_reported ids (accept4 sockfd rc) s h p = ground arith
as_reported ids (inotify_init rc) s h p = ground arith
as_reported ids (inotify_init1 flags rc) s h p = ground arith
as_reported ids (eventfd flags rc) s h p = ground arith
as_reported ids (signalfd fd flags rc) s h p = ground arith
as_reported ids (timerfd_create flags rc) s h p = ground arith
as_reported ids (epoll_create rc) s h p = ground arith
as_reported ids (epoll_create1 flags rc) s h p = ground arith
as_reported ids (getpt rc) s h p = ground arith
as_reported ids (posix_openpt flags rc) s h p = ground arith
as_reported ids (pipe pipefd rc) s h p = ground arith
as_reported ids (pipe2 pipefd flags rc) s h p = ground arith
as_reported ids (fopen path mode rc) s h p = ground arith
as_reported ids (fdopen fd mode rc) s h p = ground arith
as_reported ids (freopen path mode stream rc) s h p = ground arith
as_reported ids (popen command type rc) s h p = ground arith
as_reported ids (pclose fp rc) s h p = ground arith
as_reported ids (fclose fp rc) s h p = ground arith
as_reported ids (fcloseall rc) s h p = ground arith

-- The freed descriptor is the new one, which was not open.
fcntl-Tells :
    (ids : Ids) (fd cmd newfd rc : ℕ) (s : Files) (live : List Key)
    → is_granted (effects ids (fcntl fd cmd newfd rc)) live ≡ true
    → Tells (actions ids (fcntl fd cmd newfd rc) s) (effects ids (fcntl fd cmd newfd rc)) live
unfolding reports effects is_granted told after fresh trace_dup_common Trace.trace_fcntl
fcntl-Tells ids fd cmd newfd rc s live g =
    elim (Bool-cases ((cmd == 0 || cmd == 1030) && not (rc == failed))) [
      | inl dups ↦ elim (Bool-cases (not (is_negative (newfd % 2 ^ 32)) && newfd % 2 ^ 32 == rc)) [
        | inl freed ↦
            (let absent : is_held same (fd_key ids rc) live ≡ false = ground (arith, dups, g) in
              let e : newfd % 2 ^ 32 ≡ rc = ground (arith, freed) in
              let same_live = release_absent same (fd_key ids rc) live absent in
              record {
                same_after = rw e (ground (arith, dups, freed, same_live));
                new = rw e (ground (arith, dups, freed, same_live, absent));
              })
        | inr kept ↦ record {
          same_after = ground (arith, dups, kept);
          new = ground (arith, dups, kept, g);
        }
      ]
      | inr other ↦ record { same_after = ground (arith, other); new = ground (arith, other) }
    ]

plain-Tells :
    (ids : Ids) (u : Use) (s : Files) (live : List Key)
    → is_told u ≡ true
    → is_plain u ≡ true
    → is_granted (effects ids u) live ≡ true
    → Tells (actions ids u s) (effects ids u) live
plain-Tells ids u s live h p g =
    let (e, single) = as_reported ids u s h p in
    rw e (as_actions-Tells (effects ids u) live single g)

use-Tells :
    (ids : Ids) (u : Use) (s : Files) (live : List Key)
    → is_told u ≡ true
    → is_granted (effects ids u) live ≡ true
    → Tells (actions ids u s) (effects ids u) live
unfolding is_plain
use-Tells ids (fcntl fd cmd newfd rc) s live h g = fcntl-Tells ids fd cmd newfd rc s live g
use-Tells ids u s live h g = plain-Tells ids u s live h refl g

-- A traced process tells by its reports exactly what it has open, and its allocations are fresh.
pub told-reports_all :
    (ids : Ids) (us : List Use) (s : Files) (live : List Key)
    → all_told us ≡ true
    → grants_all ids us live ≡ true
    → (told same (map action_of (reports_all ids tracing us s).1) live ≡ opened_all ids us live)
      × (fresh same (map action_of (reports_all ids tracing us s).1) live ≡ true)
unfolding reports_all all_told grants_all opened_all told fresh
told-reports_all ids [] s live h g = (refl, refl)
told-reports_all ids (u ∷ us) s live h g =
    let (h₁, hs) = both_true _ _ h in
    let (g₁, gs) = both_true _ _ g in
    let now = actions ids u s in
    let t = (reports ids tracing u s).0 in
    let later = map action_of (reports_all ids tracing us t).1 in
    let first = use-Tells ids u s live h₁ g₁ in
    let (rest, new) = told-reports_all ids us t (after (effects ids u) live) hs gs in
    let joined =
      map-append action_of (reports ids tracing u s).1 (reports_all ids tracing us t).1 in
    (
      ap (λ l. told same l live) joined
          ∙ told-append same now later live
          ∙ ap (told same later) first.same_after
          ∙ rest,
      ap (λ l. fresh same l live) joined
          ∙ fresh-append same now later live
          ∙ ap₂ ◌&&◌ first.new (ap (fresh same later) first.same_after ∙ new),
    )
