-- ===== src/Modules/File/Trace.antt =====
-- The tracing functions of src/modules/sp_rtrace_file.c, each with the answer of the original
-- function, `rc`, and what that stored through a pointer.
use sp_rtrace.Prelude.{ℕ, ◌-◌, ◌%◌, ◌^◌, List, [], ◌∷◌, ◌++◌, not, ◌&&◌, ◌||◌, ◌==◌, if◌then◌else◌}
use sp_rtrace.Prelude.Print.{codes, hex_0x, decimal}
use sp_rtrace.Proto.Memory.{Bytes}
use sp_rtrace.Postproc.Leaks.{type_alloc}
use sp_rtrace.Modules.Memory.{fcall}
use sp_rtrace.Modules.File.State.{
  closed, file, inotify, eventfd, signalfd, timerfd, epoll, pty, pipe, Files, Ids, Written, failed,
  set_fd,
}
use sp_rtrace.Modules.File.Common.{
  arg, alloc_fd, free_fd, trace_open_common, trace_dup_common, trace_socket_common, Sockaddr,
  trace_bind_common, trace_accept_common, trace_fd_common, trace_fd_common_flags,
  trace_fopen_common, trace_fclose_common,
}

-- A function that reports nothing.
abbrev pub silent : Files → Files × List Written
silent s = (s, [])

-- One report after the other.
abbrev pub both :
    (Files → Files × List Written) → (Files → Files × List Written) → Files → Files × List Written
both f g s = let (t, first) = f s in let (u, second) = g t in (u, first ++ second)

module _ (ids : Ids) where
  unfoldable pub trace_creat : Bytes → ℕ → ℕ → Files → Files × List Written
  trace_creat pathname mode rc s = if rc == failed then silent s else (
    set_fd rc file s,
    (alloc_fd ids "creat" rc, arg "path" pathname ∷ arg "mode" (hex_0x mode) ∷ []) ∷ [],
  )

  unfoldable pub trace_open : Bytes → ℕ → ℕ → Files → Files × List Written
  trace_open pathname flags rc s =
      if rc == failed then silent s else trace_open_common ids "open" rc pathname flags s

  unfoldable pub trace_open64 : Bytes → ℕ → ℕ → Files → Files × List Written
  trace_open64 pathname flags rc s =
      if rc == failed then silent s else trace_open_common ids "open64" rc pathname flags s

  unfoldable pub trace_openat : Bytes → ℕ → ℕ → Files → Files × List Written
  trace_openat pathname flags rc s =
      if rc == failed then silent s else trace_open_common ids "openat" rc pathname flags s

  -- The table is set at `rc`, which is 0, and not at `fd`.
  unfoldable pub trace_close : ℕ → ℕ → Files → Files × List Written
  trace_close fd rc s =
      if rc == failed then silent s else (set_fd rc closed s, (free_fd ids "close" fd, []) ∷ [])

  unfoldable pub trace_dup : ℕ → ℕ → Files → Files × List Written
  trace_dup oldfd rc s =
      if rc == failed then silent s else trace_dup_common ids "dup" oldfd failed rc s

  unfoldable pub trace_dup2 : ℕ → ℕ → ℕ → Files → Files × List Written
  trace_dup2 oldfd newfd rc s =
      if not (rc == failed) && not (oldfd == newfd)
      then trace_dup_common ids "dup2" oldfd newfd rc s
      else silent s

  unfoldable pub trace_dup3 : ℕ → ℕ → ℕ → Files → Files × List Written
  trace_dup3 oldfd newfd rc s =
      if not (rc == failed) && not (oldfd == newfd)
      then trace_dup_common ids "dup3" oldfd newfd rc s
      else silent s

  -- `F_DUPFD` and `F_DUPFD_CLOEXEC`; the argument is a long, and passed on as an int.
  unfoldable pub trace_fcntl : ℕ → ℕ → ℕ → ℕ → Files → Files × List Written
  trace_fcntl fd cmd newfd rc s =
      if (cmd == 0 || cmd == 1030) && not (rc == failed)
      then trace_dup_common ids "fcntl" fd (newfd % 2 ^ 32) rc s
      else silent s

  unfoldable pub trace_socket : ℕ → ℕ → ℕ → ℕ → Files → Files × List Written
  trace_socket domain type protocol rc s =
      if rc == failed then silent s else trace_socket_common ids "socket" rc domain type protocol s

  unfoldable pub trace_socketpair : ℕ → ℕ → ℕ → ℕ × ℕ → ℕ → Files → Files × List Written
  trace_socketpair domain type protocol (fd₀, fd₁) rc s =
      if rc == failed
      then silent s
      else both (trace_socket_common ids "socketpair" fd₀ domain type protocol)
          (trace_socket_common ids "socketpair" fd₁ domain type protocol) s

  unfoldable pub trace_bind : ℕ → Sockaddr → ℕ → ℕ → Files → Files × List Written
  trace_bind sockfd addr addrlen rc s =
      if rc == 0 then trace_bind_common ids "bind" sockfd addr addrlen s else silent s

  unfoldable pub trace_connect : ℕ → Sockaddr → ℕ → ℕ → Files → Files × List Written
  trace_connect sockfd addr addrlen rc s =
      if rc == 0 then trace_bind_common ids "connect" sockfd addr addrlen s else silent s

  unfoldable pub trace_accept : ℕ → ℕ → Files → Files × List Written
  trace_accept sockfd rc s =
      if rc == failed then silent s else trace_accept_common ids "accept" sockfd rc s

  unfoldable pub trace_accept4 : ℕ → ℕ → Files → Files × List Written
  trace_accept4 sockfd rc s =
      if rc == failed then silent s else trace_accept_common ids "accept4" sockfd rc s

  unfoldable pub trace_inotify_init : ℕ → Files → Files × List Written
  trace_inotify_init rc s =
      if rc == failed then silent s else trace_fd_common ids "inotify_init" inotify rc s

  unfoldable pub trace_inotify_init1 : ℕ → ℕ → Files → Files × List Written
  trace_inotify_init1 flags rc s =
      if rc == failed
      then silent s
      else trace_fd_common_flags ids "inotify_init1" inotify rc flags s

  unfoldable pub trace_eventfd : ℕ → ℕ → Files → Files × List Written
  trace_eventfd flags rc s =
      if rc == failed then silent s else trace_fd_common_flags ids "eventfd" eventfd rc flags s

  -- Another `fd` is only changed.
  unfoldable pub trace_signalfd : ℕ → ℕ → ℕ → Files → Files × List Written
  trace_signalfd fd flags rc s =
      if fd == failed && not (rc == failed)
      then trace_fd_common_flags ids "signalfd" signalfd rc flags s
      else silent s

  unfoldable pub trace_timerfd_create : ℕ → ℕ → Files → Files × List Written
  trace_timerfd_create flags rc s =
      if rc == failed
      then silent s
      else trace_fd_common_flags ids "timerfd_create" timerfd rc flags s

  unfoldable pub trace_epoll_create : ℕ → Files → Files × List Written
  trace_epoll_create rc s =
      if rc == failed then silent s else trace_fd_common ids "epoll_create" epoll rc s

  unfoldable pub trace_epoll_create1 : ℕ → ℕ → Files → Files × List Written
  trace_epoll_create1 flags rc s =
      if rc == failed then silent s else trace_fd_common_flags ids "epoll_create1" epoll rc flags s

  unfoldable pub trace_getpt : ℕ → Files → Files × List Written
  trace_getpt rc s = if rc == failed then silent s else trace_fd_common ids "getpt" pty rc s

  unfoldable pub trace_posix_openpt : ℕ → ℕ → Files → Files × List Written
  trace_posix_openpt flags rc s =
      if rc == failed then silent s else trace_fd_common_flags ids "posix_openpt" pty rc flags s

  unfoldable pub trace_pipe : ℕ × ℕ → ℕ → Files → Files × List Written
  trace_pipe (fd₀, fd₁) rc s =
      if rc == failed
      then silent s
      else both (trace_fd_common ids "pipe" pipe fd₀) (trace_fd_common ids "pipe" pipe fd₁) s

  unfoldable pub trace_pipe2 : ℕ × ℕ → ℕ → ℕ → Files → Files × List Written
  trace_pipe2 (fd₀, fd₁) flags rc s =
      if rc == failed
      then silent s
      else both (trace_fd_common_flags ids "pipe2" pipe fd₀ flags)
          (trace_fd_common_flags ids "pipe2" pipe fd₁ flags) s

  unfoldable pub trace_fopen : Bytes → Bytes → ℕ → Files → Files × List Written
  trace_fopen path mode rc s =
      if rc == 0 then silent s else (s, trace_fopen_common ids "fopen" rc path mode)

  -- The stream takes the descriptor over.
  unfoldable pub trace_fdopen : ℕ → Bytes → ℕ → Files → Files × List Written
  trace_fdopen fd mode rc s = if rc == 0 then silent s else (
    set_fd fd closed s,
    (free_fd ids "fdopen" fd, [])
        ∷ (
          fcall ids.res_fp type_alloc (codes "fdopen") 1 rc,
          arg "fd" (decimal fd) ∷ arg "mode" mode ∷ [],
        )
        ∷ [],
  )

  unfoldable pub trace_freopen : Bytes → Bytes → ℕ → ℕ → Files → Files × List Written
  trace_freopen path mode stream rc s = if rc == 0 then silent s else (
    s,
    trace_fclose_common ids "freopen" stream ++ trace_fopen_common ids "freopen" rc path mode,
  )

  unfoldable pub trace_popen : Bytes → Bytes → ℕ → Files → Files × List Written
  trace_popen command type rc s =
      if rc == 0 then silent s else (s, trace_fopen_common ids "popen" rc command type)

  unfoldable pub trace_pclose : ℕ → ℕ → Files → Files × List Written
  trace_pclose fp rc s = if rc == 0 then (s, trace_fclose_common ids "pclose" fp) else silent s

  unfoldable pub trace_fclose : ℕ → ℕ → Files → Files × List Written
  trace_fclose fp rc s = if rc == 0 then (s, trace_fclose_common ids "fclose" fp) else silent s

  -- One call frees the stream -1.
  unfoldable pub trace_fcloseall : ℕ → Files → Files × List Written
  trace_fcloseall rc s =
      if rc == 0 then (s, trace_fclose_common ids "fcloseall" (2 ^ 64 - 1)) else silent s
