-- ===== src/Modules/File/Kinds.antt =====
-- What the table of descriptor types says of the descriptors that are open.
use sp_rtrace.Prelude.{
  both_true, ℕ, ◌<◌, Bool, true, List, [], ◌∷◌, ◌≡◌, Option, none, some, ◌&&◌, ◌||◌, ◌==◌, ltb,
  if◌then◌else◌, arith,
}
use sp_rtrace.Modules.File.State.{FdType, Files, Ids, failed, max_fd_count, set_fd, get_fd}
use sp_rtrace.Modules.File.Common.{
  trace_open_common, trace_dup_common, trace_socket_common, trace_bind_common, trace_accept_common,
  trace_fd_common, trace_fd_common_flags,
}
use sp_rtrace.Modules.File.Trace
use sp_rtrace.Modules.File.Calls.{
  Use, creat, open_path, open64, openat, close, dup, dup2, dup3, fcntl, socket, socketpair, bind,
  connect, accept, accept4, inotify_init, inotify_init1, eventfd, signalfd, timerfd_create,
  epoll_create, epoll_create1, getpt, posix_openpt, pipe, pipe2, fopen, fdopen, freopen, popen,
  pclose, fclose, fcloseall, reports, reports_all,
}
use sp_rtrace.Modules.File.Told.{tracing}

-- The type with which a descriptor was opened, if it was.
abbrev pub Kinds : Type 0
Kinds = ℕ → Option FdType

abbrev pub update : Kinds → ℕ → Option FdType → Kinds
update k fd t = λ i. if i == fd then t else k i

abbrev made : FdType → ℕ → Kinds → Kinds
made t rc k = if rc == failed then k else update k rc (some t)

abbrev made_pair : FdType → ℕ × ℕ → ℕ → Kinds → Kinds
made_pair t (fd₀, fd₁) rc k =
    if rc == failed then k else update (update k fd₀ (some t)) fd₁ (some t)

abbrev copied : ℕ → ℕ → Kinds → Kinds
copied oldfd rc k = if rc == failed then k else update k rc (k oldfd)

-- A duplicate is of the type of the original; a descriptor that a stream takes over is no longer
-- the process's own.
unfoldable pub kinds_after : Use → Kinds → Kinds
kinds_after (creat pathname mode rc) k = made FdType.file rc k
kinds_after (open_path pathname flags rc) k = made FdType.file rc k
kinds_after (open64 pathname flags rc) k = made FdType.file rc k
kinds_after (openat pathname flags rc) k = made FdType.file rc k
kinds_after (close fd rc) k = if rc == failed then k else update k fd none
kinds_after (dup oldfd rc) k = copied oldfd rc k
kinds_after (dup2 oldfd newfd rc) k = if oldfd == newfd then k else copied oldfd rc k
kinds_after (dup3 oldfd newfd rc) k = if oldfd == newfd then k else copied oldfd rc k
kinds_after (fcntl fd cmd newfd rc) k = if cmd == 0 || cmd == 1030 then copied fd rc k else k
kinds_after (socket domain type protocol rc) k = made FdType.socket rc k
kinds_after (socketpair domain type protocol sv rc) k = made_pair FdType.socket sv rc k
kinds_after (bind sockfd addr addrlen rc) k =
    if rc == 0 then update k sockfd (some FdType.socket) else k
kinds_after (connect sockfd addr addrlen rc) k =
    if rc == 0 then update k sockfd (some FdType.socket) else k
kinds_after (accept sockfd rc) k = made FdType.socket rc k
kinds_after (accept4 sockfd rc) k = made FdType.socket rc k
kinds_after (inotify_init rc) k = made FdType.inotify rc k
kinds_after (inotify_init1 flags rc) k = made FdType.inotify rc k
kinds_after (eventfd flags rc) k = made FdType.eventfd rc k
kinds_after (signalfd fd flags rc) k = if fd == failed then made FdType.signalfd rc k else k
kinds_after (timerfd_create flags rc) k = made FdType.timerfd rc k
kinds_after (epoll_create rc) k = made FdType.epoll rc k
kinds_after (epoll_create1 flags rc) k = made FdType.epoll rc k
kinds_after (getpt rc) k = made FdType.pty rc k
kinds_after (posix_openpt flags rc) k = made FdType.pty rc k
kinds_after (pipe pipefd rc) k = made_pair FdType.pipe pipefd rc k
kinds_after (pipe2 pipefd flags rc) k = made_pair FdType.pipe pipefd rc k
kinds_after (fdopen fd mode rc) k = if rc == 0 then k else update k fd none
kinds_after u k = k

unfoldable pub kinds_all : List Use → Kinds → Kinds
kinds_all [] k = k
kinds_all (u ∷ us) k = kinds_all us (kinds_after u k)

abbrev in_table : ℕ → Bool
in_table fd = ltb 0 fd && ltb fd max_fd_count

-- `close` returns 0 or -1, and what is duplicated is in the table and not descriptor 0.
unfoldable pub is_typed : Use → Bool
is_typed (close fd rc) = rc == 0 || rc == failed
is_typed (dup oldfd rc) = in_table oldfd
is_typed (dup2 oldfd newfd rc) = in_table oldfd
is_typed (dup3 oldfd newfd rc) = in_table oldfd
is_typed (fcntl fd cmd newfd rc) = in_table fd
is_typed u = true

unfoldable pub all_typed : List Use → Bool
all_typed [] = true
all_typed (u ∷ us) = is_typed u && all_typed us

-- Every open descriptor but 0 stands in the table with the type that it was opened with.
abbrev pub IsTyped : Kinds → Files → Type 0
IsTyped k s = (i : ℕ) (t : FdType) → 0 < i → i < max_fd_count → k i ≡ some t → s.rt_fds i ≡ t

reports-IsTyped :
    (ids : Ids) (u : Use) (k : Kinds) (s : Files)
    → is_typed u ≡ true
    → IsTyped k s
    → IsTyped (kinds_after u k) (reports ids tracing u s).0
unfolding reports kinds_after is_typed set_fd get_fd trace_open_common trace_dup_common
    trace_socket_common trace_bind_common trace_accept_common trace_fd_common trace_fd_common_flags
    Trace.trace_creat Trace.trace_open Trace.trace_open64 Trace.trace_openat Trace.trace_close
    Trace.trace_dup Trace.trace_dup2 Trace.trace_dup3 Trace.trace_fcntl Trace.trace_socket
    Trace.trace_socketpair Trace.trace_bind Trace.trace_connect Trace.trace_accept
    Trace.trace_accept4 Trace.trace_inotify_init Trace.trace_inotify_init1 Trace.trace_eventfd
    Trace.trace_signalfd Trace.trace_timerfd_create Trace.trace_epoll_create
    Trace.trace_epoll_create1 Trace.trace_getpt Trace.trace_posix_openpt Trace.trace_pipe
    Trace.trace_pipe2 Trace.trace_fopen Trace.trace_fdopen Trace.trace_freopen Trace.trace_popen
    Trace.trace_pclose Trace.trace_fclose Trace.trace_fcloseall
reports-IsTyped ids (creat pathname mode rc) k s h v i t pos low e = ground (arith, v i t)
reports-IsTyped ids (open_path pathname flags rc) k s h v i t pos low e = ground (arith, v i t)
reports-IsTyped ids (open64 pathname flags rc) k s h v i t pos low e = ground (arith, v i t)
reports-IsTyped ids (openat pathname flags rc) k s h v i t pos low e = ground (arith, v i t)
reports-IsTyped ids (close fd rc) k s h v i t pos low e = ground (arith, v i t)
reports-IsTyped ids (dup oldfd rc) k s h v i t pos low e = ground (arith, v i t, v oldfd t)
reports-IsTyped ids (dup2 oldfd newfd rc) k s h v i t pos low e = ground (arith, v i t, v oldfd t)
reports-IsTyped ids (dup3 oldfd newfd rc) k s h v i t pos low e = ground (arith, v i t, v oldfd t)
reports-IsTyped ids (fcntl fd cmd newfd rc) k s h v i t pos low e = ground (arith, v i t, v fd t)
reports-IsTyped ids (socket domain type protocol rc) k s h v i t pos low e = ground (arith, v i t)
reports-IsTyped ids (socketpair domain type protocol sv rc) k s h v i t pos low e =
    ground (arith, v i t)
reports-IsTyped ids (bind sockfd addr addrlen rc) k s h v i t pos low e = ground (arith, v i t)
reports-IsTyped ids (connect sockfd addr addrlen rc) k s h v i t pos low e = ground (arith, v i t)
reports-IsTyped ids (accept sockfd rc) k s h v i t pos low e = ground (arith, v i t)
reports-IsTyped ids (accept4 sockfd rc) k s h v i t pos low e = ground (arith, v i t)
reports-IsTyped ids (inotify_init rc) k s h v i t pos low e = ground (arith, v i t)
reports-IsTyped ids (inotify_init1 flags rc) k s h v i t pos low e = ground (arith, v i t)
reports-IsTyped ids (eventfd flags rc) k s h v i t pos low e = ground (arith, v i t)
reports-IsTyped ids (signalfd fd flags rc) k s h v i t pos low e = ground (arith, v i t)
reports-IsTyped ids (timerfd_create flags rc) k s h v i t pos low e = ground (arith, v i t)
reports-IsTyped ids (epoll_create rc) k s h v i t pos low e = ground (arith, v i t)
reports-IsTyped ids (epoll_create1 flags rc) k s h v i t pos low e = ground (arith, v i t)
reports-IsTyped ids (getpt rc) k s h v i t pos low e = ground (arith, v i t)
reports-IsTyped ids (posix_openpt flags rc) k s h v i t pos low e = ground (arith, v i t)
reports-IsTyped ids (pipe pipefd rc) k s h v i t pos low e = ground (arith, v i t)
reports-IsTyped ids (pipe2 pipefd flags rc) k s h v i t pos low e = ground (arith, v i t)
reports-IsTyped ids (fopen path mode rc) k s h v i t pos low e = ground (arith, v i t)
reports-IsTyped ids (fdopen fd mode rc) k s h v i t pos low e = ground (arith, v i t)
reports-IsTyped ids (freopen path mode stream rc) k s h v i t pos low e = ground (arith, v i t)
reports-IsTyped ids (popen command type rc) k s h v i t pos low e = ground (arith, v i t)
reports-IsTyped ids (pclose fp rc) k s h v i t pos low e = ground (arith, v i t)
reports-IsTyped ids (fclose fp rc) k s h v i t pos low e = ground (arith, v i t)
reports-IsTyped ids (fcloseall rc) k s h v i t pos low e = ground (arith, v i t)

-- While a process traces, let `close` return 0 or -1, and let only descriptors between 1 and 1023
-- be duplicated. Then the table keeps, for each descriptor between 1 and 1023 that is open, the
-- type with which it was opened, a duplicate having that of its original and a bound or connected
-- descriptor that of a socket.
pub reports_all-IsTyped :
    (ids : Ids) (us : List Use) (k : Kinds) (s : Files)
    → all_typed us ≡ true
    → IsTyped k s
    → IsTyped (kinds_all us k) (reports_all ids tracing us s).0
unfolding reports_all kinds_all all_typed
reports_all-IsTyped ids [] k s h v = v
reports_all-IsTyped ids (u ∷ us) k s h v =
    let (now, later) = both_true _ _ h in
    reports_all-IsTyped ids us (kinds_after u k) (reports ids tracing u s).0 later
      (reports-IsTyped ids u k s now v)
