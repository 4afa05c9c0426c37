-- ===== src/Tracer/Handshake.antt =====
-- `write_handshake` of src/modules/sp_rtrace_main.c, which uses no packet macros.
pub mod Stored
use sp_rtrace.Prelude.{ℕ, ◌+◌, ◌-◌, ◌*◌, ◌/◌, ◌%◌, Bool, Option, ◌==◌, if◌then◌else◌}
use sp_rtrace.Proto.Memory.{Bytes}
use sp_rtrace.Proto.Types.{hs_id}
use sp_rtrace.Proto.Write.{write_byte, copy_string}
use sp_rtrace.Tracer.Pipe.{Pipe}
use sp_rtrace.Tracer.Packet.{Cursor, put, reserve, insert_at, send}

-- SP_RTRACE_PROTO_ALIGN_SIZE
unfoldable pub align_size : ℕ → ℕ
align_size size = size + (4 - size % 4) % 4

-- `endianness`, which is 0 on a little-endian host, and `sizeof(pointer_t)`.
abbrev pub endianness : ℕ
endianness = 0

abbrev pub pointer_size : ℕ
pointer_size = 8

-- `while (*arch) *ptr++ = *arch++;`
abbrev pub copy_arch : Bytes → Cursor → Cursor
copy_arch arch c =
    let (m, ptr) = copy_string c.memory c.ptr arch in record { memory = m; ptr = ptr }

-- The padding keeps whatever the buffer holds there.
unfoldable pub handshake_body : ℕ → ℕ → Bytes → Cursor → Cursor
handshake_body major minor arch c =
    let buffer = c.ptr in
    let c₁ = insert_at buffer (write_byte hs_id) (reserve 2 c) in
    let c₂ = put (write_byte minor) (put (write_byte major) c₁) in
    let pstr = c₂.ptr in
    let c₃ = copy_arch arch (reserve 1 c₂) in
    let c₄ = insert_at pstr (write_byte (c₃.ptr - pstr - 1)) c₃ in
    let c₅ = put (write_byte pointer_size) (put (write_byte endianness) c₄) in
    let size = align_size (c₅.ptr - buffer) in
    insert_at (buffer + 1) (write_byte (size - 2)) (record c₅ { ptr = buffer + size })

unfoldable pub write_handshake : ℕ → ℕ → Bytes → Bool → Pipe → Option (Pipe × ℕ)
write_handshake major minor arch = send (handshake_body major minor arch)
