-- ===== src/Modules/File/Calls.antt =====
-- The functions of src/modules/sp_rtrace_file.c that stand in for the C library's, and what they
-- report.
use sp_rtrace.Prelude.{ℕ, Bool, true, false, List, [], ◌∷◌, ◌++◌}
use sp_rtrace.Proto.Memory.{Bytes}
use sp_rtrace.Modules.File.State.{Files, Ids, Written}
use sp_rtrace.Modules.File.Common.{Sockaddr}
use sp_rtrace.Modules.File.Trace.{
  silent, trace_creat, trace_open, trace_open64, trace_openat, trace_close, trace_dup, trace_dup2,
  trace_dup3, trace_fcntl, trace_socket, trace_socketpair, trace_bind, trace_connect, trace_accept,
  trace_accept4, trace_inotify_init, trace_inotify_init1, trace_eventfd, trace_signalfd,
  trace_timerfd_create, trace_epoll_create, trace_epoll_create1, trace_getpt, trace_posix_openpt,
  trace_pipe, trace_pipe2, trace_fopen, trace_fdopen, trace_freopen, trace_popen, trace_pclose,
  trace_fclose, trace_fcloseall,
}

-- `trace_rt` is `trace_on` or `trace_off`; `backtrace_lock` is set while the thread is in
-- `backtrace`.
pub record Mode : Type 0 where
  pub tracing : Bool
  pub backtrace_lock : Bool

-- A call of the process with the answer of the original function behind it. The mode of a new file
-- and the time of a timer, which are only passed on, are left out.
pub data Use : Type 0 where
  creat : (pathname : Bytes) (mode rc : ℕ) → Use
  open_path : (pathname : Bytes) (flags rc : ℕ) → Use
  open64 : (pathname : Bytes) (flags rc : ℕ) → Use
  openat : (pathname : Bytes) (flags rc : ℕ) → Use
  close : (fd rc : ℕ) → Use
  dup : (oldfd rc : ℕ) → Use
  dup2 : (oldfd newfd rc : ℕ) → Use
  dup3 : (oldfd newfd rc : ℕ) → Use
  fcntl : (fd cmd newfd rc : ℕ) → Use
  socket : (domain type protocol rc : ℕ) → Use
  socketpair : (domain type protocol : ℕ) (sv : ℕ × ℕ) (rc : ℕ) → Use
  bind : (sockfd : ℕ) (addr : Sockaddr) (addrlen rc : ℕ) → Use
  connect : (sockfd : ℕ) (addr : Sockaddr) (addrlen rc : ℕ) → Use
  accept : (sockfd rc : ℕ) → Use
  accept4 : (sockfd rc : ℕ) → Use
  inotify_init : (rc : ℕ) → Use
  inotify_init1 : (flags rc : ℕ) → Use
  eventfd : (flags rc : ℕ) → Use
  signalfd : (fd flags rc : ℕ) → Use
  timerfd_create : (flags rc : ℕ) → Use
  epoll_create : (rc : ℕ) → Use
  epoll_create1 : (flags rc : ℕ) → Use
  getpt : (rc : ℕ) → Use
  posix_openpt : (flags rc : ℕ) → Use
  pipe : (pipefd : ℕ × ℕ) (rc : ℕ) → Use
  pipe2 : (pipefd : ℕ × ℕ) (flags rc : ℕ) → Use
  fopen : (path mode : Bytes) (rc : ℕ) → Use
  fdopen : (fd : ℕ) (mode : Bytes) (rc : ℕ) → Use
  freopen : (path mode : Bytes) (stream rc : ℕ) → Use
  popen : (command type : Bytes) (rc : ℕ) → Use
  pclose : (fp rc : ℕ) → Use
  fclose : (fp rc : ℕ) → Use
  fcloseall : (rc : ℕ) → Use

-- Through `trace_rt`.
abbrev pub rt : Mode → (Files → Files × List Written) → Files → Files × List Written
rt m f s = elim m.tracing [ true ↦ f s | false ↦ silent s ]

-- BT_EXECUTE_LOCKED: a call from inside `backtrace` goes to the original function.
abbrev pub execute_locked : Mode → (Files → Files × List Written) → Files → Files × List Written
execute_locked m f s = elim m.backtrace_lock [ true ↦ silent s | false ↦ rt m f s ]

unfoldable pub reports : Ids → Mode → Use → Files → Files × List Written
reports ids m (creat pathname mode rc) = rt m (trace_creat ids pathname mode rc)
reports ids m (open_path pathname flags rc) = execute_locked m (trace_open ids pathname flags rc)
reports ids m (open64 pathname flags rc) = execute_locked m (trace_open64 ids pathname flags rc)
reports ids m (openat pathname flags rc) = rt m (trace_openat ids pathname flags rc)
reports ids m (close fd rc) = execute_locked m (trace_close ids fd rc)
reports ids m (dup oldfd rc) = rt m (trace_dup ids oldfd rc)
reports ids m (dup2 oldfd newfd rc) = rt m (trace_dup2 ids oldfd newfd rc)
reports ids m (dup3 oldfd newfd rc) = rt m (trace_dup3 ids oldfd newfd rc)
reports ids m (fcntl fd cmd newfd rc) = rt m (trace_fcntl ids fd cmd newfd rc)
reports ids m (socket domain type protocol rc) = rt m (trace_socket ids domain type protocol rc)
reports ids m (socketpair domain type protocol sv rc) =
    rt m (trace_socketpair ids domain type protocol sv rc)
reports ids m (bind sockfd addr addrlen rc) = rt m (trace_bind ids sockfd addr addrlen rc)
reports ids m (connect sockfd addr addrlen rc) = rt m (trace_connect ids sockfd addr addrlen rc)
reports ids m (accept sockfd rc) = rt m (trace_accept ids sockfd rc)
reports ids m (accept4 sockfd rc) = rt m (trace_accept4 ids sockfd rc)
reports ids m (inotify_init rc) = rt m (trace_inotify_init ids rc)
reports ids m (inotify_init1 flags rc) = rt m (trace_inotify_init1 ids flags rc)
reports ids m (eventfd flags rc) = rt m (trace_eventfd ids flags rc)
reports ids m (signalfd fd flags rc) = rt m (trace_signalfd ids fd flags rc)
reports ids m (timerfd_create flags rc) = rt m (trace_timerfd_create ids flags rc)
reports ids m (epoll_create rc) = rt m (trace_epoll_create ids rc)
reports ids m (epoll_create1 flags rc) = rt m (trace_epoll_create1 ids flags rc)
reports ids m (getpt rc) = rt m (trace_getpt ids rc)
reports ids m (posix_openpt flags rc) = rt m (trace_posix_openpt ids flags rc)
reports ids m (pipe pipefd rc) = rt m (trace_pipe ids pipefd rc)
reports ids m (pipe2 pipefd flags rc) = rt m (trace_pipe2 ids pipefd flags rc)
reports ids m (fopen path mode rc) = rt m (trace_fopen ids path mode rc)
reports ids m (fdopen fd mode rc) = rt m (trace_fdopen ids fd mode rc)
reports ids m (freopen path mode stream rc) = rt m (trace_freopen ids path mode stream rc)
reports ids m (popen command type rc) = rt m (trace_popen ids command type rc)
reports ids m (pclose fp rc) = rt m (trace_pclose ids fp rc)
reports ids m (fclose fp rc) = rt m (trace_fclose ids fp rc)
reports ids m (fcloseall rc) = rt m (trace_fcloseall ids rc)

unfoldable pub reports_all : Ids → Mode → List Use → Files → Files × List Written
reports_all ids m [] s = (s, [])
reports_all ids m (u ∷ us) s =
    let (t, now) = reports ids m u s in let (v, later) = reports_all ids m us t in (v, now ++ later)
