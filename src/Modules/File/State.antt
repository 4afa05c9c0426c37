-- ===== src/Modules/File/State.antt =====
-- The state of src/modules/sp_rtrace_file.c: the table of descriptor types and the last socket
-- that was bound or connected.
use sp_rtrace.Prelude.{ℕ, ◌^◌, Bool, List, ◌||◌, ◌==◌, leb, ltb, if◌then◌else◌}
use sp_rtrace.Prelude.Print.{codes}
use sp_rtrace.Proto.Memory.{Bytes}
use sp_rtrace.Tracer.Call.{Fcall, Farg}

-- `rt_fd_t`.
pub data FdType : Type 0 where
  unknown closed file socket inotify eventfd signalfd timerfd epoll pty pipe : FdType

-- `get_fd_string`.
unfoldable pub get_fd_string : FdType → Bytes
get_fd_string unknown = codes "(unknown)"
get_fd_string closed = codes "(closed)"
get_fd_string file = codes "file"
get_fd_string socket = codes "socket"
get_fd_string inotify = codes "inotify"
get_fd_string eventfd = codes "eventfd"
get_fd_string signalfd = codes "signalfd"
get_fd_string timerfd = codes "timerfd"
get_fd_string epoll = codes "epoll"
get_fd_string pty = codes "pty"
get_fd_string pipe = codes "pipe"

abbrev pub max_fd_count : ℕ
max_fd_count = 1024

-- An int is its bit pattern; this one is -1.
abbrev pub failed : ℕ
failed = 0xffffffff

abbrev pub is_negative : ℕ → Bool
is_negative fd = leb (2 ^ 31) fd

-- `rt_fds` without bounds: a negative index would lie in front of the array.
pub record Files : Type 0 where
  pub rt_fds : ℕ → FdType
  pub last_sock_fd : ℕ
  pub last_sock_info : Bytes

-- `res_fd.id` and `res_fp.id`, which the registration gives out.
pub record Ids : Type 0 where
  pub res_fd : ℕ
  pub res_fp : ℕ

-- A call with its arguments, as it is given to `sp_rtrace_write_function_call`.
abbrev pub Written : Type 0
Written = Fcall × List Farg

unfoldable pub set_fd : ℕ → FdType → Files → Files
set_fd fd type s =
    if is_negative fd || ltb fd max_fd_count
    then record s { rt_fds = λ i. if i == fd then type else s.rt_fds i }
    else s

unfoldable pub get_fd : ℕ → Files → FdType
get_fd fd s = if is_negative fd || ltb fd max_fd_count then s.rt_fds fd else unknown
