-- ===== src/Binary/Framed.antt =====
-- What `read_generic_packet` does on a packet that the tracing module has framed.
use sp_rtrace.Prelude.{
  ℕ, ◌+◌, ◌%◌, ◌^◌, ◌-◌, ◌≤◌, ◌<◌, true, false, ◌++◌, ◌≡◌, ◌≢◌, ap, ◌∙◌, some, ltb, length,
  length-append, append_assoc, arith,
}
use sp_rtrace.Proto.Memory.{Bytes}
use sp_rtrace.Proto.Encode.{dword, length-dword}
use sp_rtrace.Proto.RoundTrip.{read_dword-dword}
use sp_rtrace.Proto.Types.{hs_id}
use sp_rtrace.Tracer.Packet.Emits.{framed}
use sp_rtrace.Binary.Data.{Hshake}
use sp_rtrace.Binary.Generic.{
  Parser, read_header, starts_handshake, exceeds, parse_payload, finish, dispatch,
  read_generic_packet,
}

framed_split :
    (type : ℕ) (bs rest : Bytes)
    → framed type bs ++ rest ≡ dword type ++ (dword (length bs) ++ (bs ++ rest))
framed_split type bs rest =
    append_assoc (dword type) (dword (length bs) ++ bs) rest
    ∙ ap (λ t. dword type ++ t) (append_assoc (dword (length bs)) bs rest)

pub length-framed : (type : ℕ) (bs : Bytes) → length (framed type bs) ≡ 8 + length bs
length-framed type bs = omega (
  arith,
  length-append (dword type) (dword (length bs) ++ bs),
  length-append (dword (length bs)) bs,
  length-dword type,
  length-dword (length bs),
)

module _ (hs : Hshake) (type : ℕ) (bs rest : Bytes) (new : 2 ≤ hs.vmajor)
    (small : type < 2 ^ 32) where
  read_header-framed :
      length bs < 2 ^ 31 - 8
      → read_header hs (framed type bs ++ rest) ≡ some ((length bs + 8, type), bs ++ rest)
  unfolding read_header
  read_header-framed fits =
      let v : ltb hs.vmajor 2 ≡ false = ground arith in
      rw (framed_split type bs rest, read_dword-dword, read_dword-dword (length bs), v)
        (ap (λ n. some (n, bs ++ rest)) (ground arith))

  starts_handshake-framed :
      type % 256 ≢ hs_id → starts_handshake hs (framed type bs ++ rest) ≡ false
  unfolding starts_handshake dword
  starts_handshake-framed ne = ground arith

-- From protocol 2.0 on, a packet of less than 2 ^ 31 - 8 bytes that is framed by type and length,
-- with a type that does not look like a handshake, is dispatched by its type on its payload and
-- returns its full size, whatever stands behind it.
pub read_generic_packet-framed :
    (p : Parser) (type : ℕ) (bs rest : Bytes)
    → 2 ≤ p.rd.hshake.vmajor
    → type < 2 ^ 32
    → type % 256 ≢ hs_id
    → length bs < 2 ^ 31 - 8
    → read_generic_packet p (framed type bs ++ rest)
      ≡ finish (length bs + 8) p (dispatch type p (bs ++ rest))
unfolding read_generic_packet parse_payload exceeds
read_generic_packet-framed p type bs rest new small ne fits =
    let n : ltb (length (framed type bs ++ rest)) 8 ≡ false =
      ground (arith, length-append (framed type bs) rest, length-framed type bs) in
    let e : ltb (length (framed type bs ++ rest)) (length bs + 8) ≡ false =
      ground (arith, length-append (framed type bs) rest, length-framed type bs) in
    let m : ltb (length bs + 8) (2 ^ 31) ≡ true = ground arith in
    rw (
      n,
      read_header-framed p.rd.hshake type bs rest new small fits,
      starts_handshake-framed p.rd.hshake type bs rest new small ne,
      m,
      e,
    )
