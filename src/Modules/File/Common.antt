-- ===== src/Modules/File/Common.antt =====
-- What the traced functions of src/modules/sp_rtrace_file.c have in common: the calls that they
-- write, with their arguments, and the type that the table then has.
use sp_rtrace.Prelude.{
  ℕ, ◌+◌, Bool, List, [], ◌∷◌, ◌++◌, some, not, ◌&&◌, ◌==◌, ltb, if◌then◌else◌, length, take, drop,
  replicate, ◌-◌,
}
use Prim.Native.String.{String}
use sp_rtrace.Prelude.Print.{codes, hex_0x, hex_2, decimal}
use sp_rtrace.Proto.Memory.{Bytes}
use sp_rtrace.Proto.Read.{sign_extend, c_string}
use sp_rtrace.Tracer.Call.{Fcall, Farg}
use sp_rtrace.Postproc.Leaks.{type_alloc, type_free}
use sp_rtrace.Modules.Memory.{fcall}
use sp_rtrace.Modules.File.State.{
  FdType, file, socket, Files, Ids, Written, is_negative, get_fd_string, set_fd, get_fd,
}

abbrev pub arg : String → Bytes → Farg
arg name value = record { name = codes name; value = some value }

-- A descriptor, which is extended to a pointer, is allocated or freed.
abbrev pub alloc_fd : Ids → String → ℕ → Fcall
alloc_fd ids name fd = fcall ids.res_fd type_alloc (codes name) 1 (sign_extend fd)

abbrev pub free_fd : Ids → String → ℕ → Fcall
free_fd ids name fd = fcall ids.res_fd type_free (codes name) 0 (sign_extend fd)

unfoldable pub trace_open_common : Ids → String → ℕ → Bytes → ℕ → Files → Files × List Written
trace_open_common ids name fd path flags s = (
  set_fd fd file s,
  (alloc_fd ids name fd, arg "path" path ∷ arg "flags" (hex_0x flags) ∷ []) ∷ [],
)

-- `newfd` is closed if it was open.
unfoldable pub trace_dup_common : Ids → String → ℕ → ℕ → ℕ → Files → Files × List Written
trace_dup_common ids name oldfd newfd retfd s = (
  set_fd retfd (get_fd oldfd s) s,
  (if not (is_negative newfd) && newfd == retfd then (free_fd ids name newfd, []) ∷ [] else [])
      ++ (
        alloc_fd ids name retfd,
        arg "oldfd" (decimal oldfd) ∷ arg "type" (get_fd_string (get_fd oldfd s)) ∷ [],
      )
        ∷ [],
)

unfoldable pub trace_socket_common : Ids → String → ℕ → ℕ → ℕ → ℕ → Files → Files × List Written
trace_socket_common ids name fd domain type protocol s = (
  set_fd fd socket s,
  (
    alloc_fd ids name fd,
    arg "domain" (hex_0x domain) ∷ arg "type" (hex_0x type) ∷ arg "protocol" (hex_0x protocol) ∷ [],
  )
      ∷ [],
)

-- `struct sockaddr` by its family, with the fields that are read; `other` has the family.
pub data Sockaddr : Type 0 where
  af_unix : (sa_data : Bytes) → Sockaddr
  af_inet : (s_addr : Bytes) (sin_port : ℕ) → Sockaddr
  af_inet6 : (s6_addr : Bytes) (sin6_port : ℕ) → Sockaddr
  af_netlink : (nl_pid : ℕ) → Sockaddr
  af_packet : (sll_protocol sll_ifindex : ℕ) → Sockaddr
  other : (sa_family : ℕ) → Sockaddr

-- `sizeof(struct sockaddr_un)`.
abbrev pub info_size : ℕ
info_size = 110

-- `sprintf` into a buffer: the text, its null byte, and what was behind it.
unfoldable pub print_into : Bytes → Bytes → Bytes
print_into text buffer = text ++ 0 ∷ drop (length text + 1) buffer

-- `strncpy(buffer, source, n)`: padded with null bytes to `n`, and not ended by one beyond.
unfoldable pub strncpy : Bytes → Bytes → ℕ → Bytes
strncpy buffer source n =
    let text = take n (c_string source) in text ++ (replicate (n - length text) 0 ++ drop n buffer)

-- `text` between the elements.
unfoldable pub join : Bytes → List Bytes → Bytes
join text [] = []
join text (x ∷ []) = x
join text (x ∷ y ∷ rest) = x ++ (text ++ join text (y ∷ rest))

unfoldable pub print_each : (ℕ → Bytes) → Bytes → List Bytes
print_each print [] = []
print_each print (b ∷ bytes) = print b ∷ print_each print bytes

-- `last_sock_info` for an address, from its first byte set to null on.
unfoldable pub sock_info : Sockaddr → ℕ → Bytes → Bytes
unfolding print_into strncpy
sock_info (af_unix sa_data) addrlen info =
    let maxlen = if ltb addrlen info_size then addrlen else info_size in
    take (info_size - 1) (strncpy info sa_data maxlen) ++ 0 ∷ []
sock_info (af_inet s_addr sin_port) addrlen info =
    print_into (join (codes ".") (print_each decimal s_addr) ++ b':' ∷ decimal sin_port) info
sock_info (af_inet6 s6_addr sin6_port) addrlen info =
    print_into (join (codes ":") (print_each hex_2 s6_addr) ++ b'/' ∷ decimal sin6_port) info
sock_info (af_netlink nl_pid) addrlen info = print_into (decimal nl_pid) info
sock_info (af_packet sll_protocol sll_ifindex) addrlen info =
    print_into (hex_0x sll_protocol ++ b':' ∷ hex_0x sll_ifindex) info
sock_info (other sa_family) addrlen info = print_into (hex_0x sa_family) info

-- `args` of `trace_bind_common`.
unfoldable pub sock_args : Sockaddr → Bytes → List Farg
sock_args (af_unix sa_data) info = arg "family" (codes "AF_UNIX") ∷ arg "path" info ∷ []
sock_args (af_inet s_addr sin_port) info =
    arg "family" (codes "AF_INET") ∷ arg "address:port" info ∷ []
sock_args (af_inet6 s6_addr sin6_port) info =
    arg "family" (codes "AF_INET6") ∷ arg "address/port" info ∷ []
sock_args (af_netlink nl_pid) info =
    arg "family" (codes "AF_NETLINK") ∷ arg "dest-PID/socket" info ∷ []
sock_args (af_packet sll_protocol sll_ifindex) info =
    arg "family" (codes "AF_PACKET") ∷ arg "protocol:interface" info ∷ []
sock_args (other sa_family) info = arg "family" info ∷ []

-- The socket is freed and allocated again, now with its address; its size is then 0.
unfoldable pub trace_bind_common : Ids → String → ℕ → Sockaddr → ℕ → Files → Files × List Written
trace_bind_common ids name fd addr addrlen s =
    let info = sock_info addr addrlen (0 ∷ drop 1 s.last_sock_info) in
    let call = fcall ids.res_fd type_alloc (codes name) 0 (sign_extend fd) in
    (
      set_fd fd socket (record s { last_sock_fd = fd; last_sock_info = info }),
      (free_fd ids name fd, []) ∷ (call, sock_args addr (c_string info)) ∷ [],
    )

abbrev pub is_socket : FdType → Bool
is_socket socket = Bool.true
is_socket type = Bool.false

unfoldable pub trace_accept_common : Ids → String → ℕ → ℕ → Files → Files × List Written
trace_accept_common ids name sockfd retfd s =
    let info = c_string s.last_sock_info in
    let known = is_socket (get_fd sockfd s) && s.last_sock_fd == sockfd && ltb 0 (length info) in
    (
      set_fd retfd socket s,
      (
        alloc_fd ids name retfd,
        arg "sockfd" (decimal sockfd) ∷ (if known then arg "path" info ∷ [] else []),
      )
          ∷ [],
    )

unfoldable pub trace_fd_common : Ids → String → FdType → ℕ → Files → Files × List Written
trace_fd_common ids name type fd s = (set_fd fd type s, (alloc_fd ids name fd, []) ∷ [])

unfoldable pub trace_fd_common_flags : Ids → String → FdType → ℕ → ℕ → Files → Files × List Written
trace_fd_common_flags ids name type fd flags s =
    (set_fd fd type s, (alloc_fd ids name fd, arg "flags" (hex_0x flags) ∷ []) ∷ [])

unfoldable pub trace_fopen_common : Ids → String → ℕ → Bytes → Bytes → List Written
trace_fopen_common ids name fp path mode =
    (fcall ids.res_fp type_alloc (codes name) 1 fp, arg "path" path ∷ arg "mode" mode ∷ []) ∷ []

unfoldable pub trace_fclose_common : Ids → String → ℕ → List Written
trace_fclose_common ids name fp = (fcall ids.res_fp type_free (codes name) 0 fp, []) ∷ []
