-- ===== src/Modules/File/Live.antt =====
-- Which descriptors and streams a process has open, by the documented behaviour of the C library
-- and apart from what is reported.
use sp_rtrace.Prelude.{ℕ, Bool, true, List, [], ◌∷◌, ◌++◌, not, ◌&&◌, ◌||◌, ◌==◌, if◌then◌else◌}
use sp_rtrace.Proto.Read.{sign_extend}
use sp_rtrace.Modules.Held.{release, is_held}
use sp_rtrace.Modules.File.State.{Ids, failed, is_negative}
use sp_rtrace.Modules.File.Calls.{
  Use, creat, open_path, open64, openat, close, dup, dup2, dup3, fcntl, socket, socketpair, bind,
  connect, accept, accept4, inotify_init, inotify_init1, eventfd, signalfd, timerfd_create,
  epoll_create, epoll_create1, getpt, posix_openpt, pipe, pipe2, fopen, fdopen, freopen, popen,
  pclose, fclose, fcloseall,
}

-- The id of the resource type, and the descriptor or the stream as a pointer.
abbrev pub Key : Type 0
Key = ℕ × ℕ

abbrev pub same : Key → Key → Bool
same (t, x) (u, y) = t == u && x == y

pub data Effect : Type 0 where
  opens : Key → Effect
  closes : Key → Effect
  closes_all : ℕ → Effect

-- All that have the type are closed.
unfoldable pub without : ℕ → List Key → List Key
without type [] = []
without type ((t, x) ∷ live) =
    let rest = without type live in if t == type then rest else (t, x) ∷ rest

unfoldable pub after : List Effect → List Key → List Key
after [] live = live
after (opens key ∷ es) live = after es (live ++ key ∷ [])
after (closes key ∷ es) live = after es (release same key live)
after (closes_all type ∷ es) live = after es (without type live)

-- What is opened is not open already.
unfoldable pub is_granted : List Effect → List Key → Bool
is_granted [] live = true
is_granted (opens key ∷ es) live = not (is_held same key live) && is_granted es (live ++ key ∷ [])
is_granted (closes key ∷ es) live = is_granted es (release same key live)
is_granted (closes_all type ∷ es) live = is_granted es (without type live)

module _ (ids : Ids) where
  abbrev pub fd_key : ℕ → Key
  fd_key fd = (ids.res_fd, sign_extend fd)

  abbrev pub fp_key : ℕ → Key
  fp_key fp = (ids.res_fp, fp)

  abbrev new_fd : ℕ → List Effect
  new_fd rc = if rc == failed then [] else opens (fd_key rc) ∷ []

  abbrev new_pair : ℕ × ℕ → ℕ → List Effect
  new_pair (fd₀, fd₁) rc = if rc == failed then [] else opens (fd_key fd₀) ∷ opens (fd_key fd₁) ∷ []

  abbrev new_fp : ℕ → List Effect
  new_fp rc = if rc == 0 then [] else opens (fp_key rc) ∷ []

  -- `newfd` is closed first, unless both are the same.
  abbrev over : ℕ → ℕ → ℕ → List Effect
  over oldfd newfd rc =
      if not (rc == failed) && not (oldfd == newfd)
      then closes (fd_key newfd) ∷ opens (fd_key rc) ∷ []
      else []

  -- A socket with a new address is open as a new one.
  abbrev renewed : ℕ → ℕ → List Effect
  renewed fd rc = if rc == 0 then closes (fd_key fd) ∷ opens (fd_key fd) ∷ [] else []

  -- `fclose`, `pclose` and `freopen` close the stream also where they fail; a descriptor that a
  -- stream was made for belongs to it.
  unfoldable pub effects : Use → List Effect
  effects (creat pathname mode rc) = new_fd rc
  effects (open_path pathname flags rc) = new_fd rc
  effects (open64 pathname flags rc) = new_fd rc
  effects (openat pathname flags rc) = new_fd rc
  effects (close fd rc) = if rc == failed then [] else closes (fd_key fd) ∷ []
  effects (dup oldfd rc) = new_fd rc
  effects (dup2 oldfd newfd rc) = over oldfd newfd rc
  effects (dup3 oldfd newfd rc) = over oldfd newfd rc
  effects (fcntl fd cmd newfd rc) = if cmd == 0 || cmd == 1030 then new_fd rc else []
  effects (socket domain type protocol rc) = new_fd rc
  effects (socketpair domain type protocol sv rc) = new_pair sv rc
  effects (bind sockfd addr addrlen rc) = renewed sockfd rc
  effects (connect sockfd addr addrlen rc) = renewed sockfd rc
  effects (accept sockfd rc) = new_fd rc
  effects (accept4 sockfd rc) = new_fd rc
  effects (inotify_init rc) = new_fd rc
  effects (inotify_init1 flags rc) = new_fd rc
  effects (eventfd flags rc) = new_fd rc
  effects (signalfd fd flags rc) = if fd == failed then new_fd rc else []
  effects (timerfd_create flags rc) = new_fd rc
  effects (epoll_create rc) = new_fd rc
  effects (epoll_create1 flags rc) = new_fd rc
  effects (getpt rc) = new_fd rc
  effects (posix_openpt flags rc) = new_fd rc
  effects (pipe pipefd rc) = new_pair pipefd rc
  effects (pipe2 pipefd flags rc) = new_pair pipefd rc
  effects (fopen path mode rc) = new_fp rc
  effects (fdopen fd mode rc) = if rc == 0 then [] else closes (fd_key fd) ∷ opens (fp_key rc) ∷ []
  effects (freopen path mode stream rc) = closes (fp_key stream) ∷ new_fp rc
  effects (popen command type rc) = new_fp rc
  effects (pclose fp rc) = closes (fp_key fp) ∷ []
  effects (fclose fp rc) = closes (fp_key fp) ∷ []
  effects (fcloseall rc) = if rc == 0 then closes_all ids.res_fp ∷ [] else []

  unfoldable pub opened_all : List Use → List Key → List Key
  opened_all [] live = live
  opened_all (u ∷ us) live = opened_all us (after (effects u) live)

  -- The system opens only what is not open.
  unfoldable pub grants_all : List Use → List Key → Bool
  grants_all [] live = true
  grants_all (u ∷ us) live = is_granted (effects u) live && grants_all us (after (effects u) live)

abbrev moves : ℕ → ℕ → ℕ → Bool
moves oldfd newfd rc = rc == failed || oldfd == newfd || rc == newfd && not (is_negative newfd)

-- `dup2` and `dup3` return the descriptor that they were given; no stream is closed in a way that is
-- not reported: by a call that fails (`fclose`, `freopen`), by a `pclose` with another status than
-- 0, or by `fcloseall`.
unfoldable pub is_told : Use → Bool
is_told (dup2 oldfd newfd rc) = moves oldfd newfd rc
is_told (dup3 oldfd newfd rc) = moves oldfd newfd rc
is_told (freopen path mode stream rc) = not (rc == 0)
is_told (pclose fp rc) = rc == 0
is_told (fclose fp rc) = rc == 0
is_told (fcloseall rc) = not (rc == 0)
is_told u = true

unfoldable pub all_told : List Use → Bool
all_told [] = true
all_told (u ∷ us) = is_told u && all_told us
