-- ===== src/Tracer/Packet/Emits.antt =====
-- What the macros leave in memory: a packet body emits a list of bytes at the cursor.
use sp_rtrace.Prelude.{
  ℕ, ◌+◌, ◌-◌, Bool, true, false, List, [], ◌∷◌, ◌++◌, ◌≡◌, refl, sym, ap, ap₂, ◌∙◌, append_assoc,
  arith, length, some, length-append,
}
use sp_rtrace.Proto.Memory.{Bytes, Mem, store, store-append, store_comm}
use sp_rtrace.Proto.Encode.{dword, length-dword}
use sp_rtrace.Proto.Write.{Writer, Writes, write_dword, write_dword-Writes}
use sp_rtrace.Tracer.Pipe.{Pipe, lock}
use sp_rtrace.Tracer.Pipe.Stream.{finish}
use sp_rtrace.Tracer.Packet.{Cursor, put, reserve, insert_at, put_all, packet, send}

abbrev pub after : Cursor → Bytes → Cursor
after c bs = record { memory = store c.memory c.ptr bs; ptr = c.ptr + length bs }

pub record Emits (body : Cursor → Cursor) (bs : Bytes) : Type 0 where
  pub run : (c : Cursor) → body c ≡ after c bs

abbrev pub framed : ℕ → Bytes → Bytes
framed type bs = dword type ++ (dword (length bs) ++ bs)

-- Types with the bytes of their packets, one behind the other.
abbrev pub Framed : Type 0
Framed = ℕ × Bytes

unfoldable pub packets : List Framed → Bytes
packets [] = []
packets ((type, bs) ∷ ps) = framed type bs ++ packets ps

pub packets-append : (ps qs : List Framed) → packets (ps ++ qs) ≡ packets ps ++ packets qs
unfolding packets
packets-append [] qs = refl
packets-append ((type, bs) ∷ ps) qs =
    ap (λ l. framed type bs ++ l) (packets-append ps qs)
    ∙ sym (append_assoc (framed type bs) (packets ps) (packets qs))

pub after-append : (c : Cursor) (xs ys : Bytes) → after (after c xs) ys ≡ after c (xs ++ ys)
after-append c xs ys =
    ap₂ (λ m p. record { memory = m; ptr = p }) (sym (store-append c.memory c.ptr xs ys))
      (omega (arith, length-append xs ys))

pub put-Emits : {w : Writer} {bs : Bytes} → Writes w bs → Emits (put w) bs
unfolding put
put-Emits h = record {
  run = λ c. ap (λ r. record { memory = r.0; ptr = c.ptr + r.1 }) (h.run c.memory c.ptr);
}

pub Emits-then :
    {f g : Cursor → Cursor} {xs ys : Bytes}
    → Emits f xs
    → Emits g ys
    → Emits (λ c. g (f c)) (xs ++ ys)
Emits-then {f} {g} {xs} {ys} h k = record {
  run = λ c. ap g (h.run c) ∙ k.run (after c xs) ∙ after-append c xs ys;
}

-- Writers that are called one after the other.
pub data WritesAll : List Writer → Bytes → Type 0 where
  one : {w : Writer} {bs : Bytes} → Writes w bs → WritesAll (w ∷ []) bs
  more :
      {w : Writer} {ws : List Writer} {bs rest : Bytes}
      → Writes w bs
      → WritesAll ws rest
      → WritesAll (w ∷ ws) (bs ++ rest)

pub put_all-Emits : {ws : List Writer} {bs : Bytes} → WritesAll ws bs → Emits (put_all ws) bs
unfolding put_all
put_all-Emits (one h) = record { run = (put-Emits h).run }
put_all-Emits (more {w} {ws} h k) = record {
  run = (Emits-then {f = put w} {g = put_all ws} (put-Emits h) (put_all-Emits k)).run;
}

-- A place of `length xs` bytes is left free, filled behind, and filled in last.
pub reserve_then_insert :
    (m : Mem) (p : ℕ) (xs bs : Bytes)
    → store (store m (p + length xs) bs) p xs ≡ store m p (xs ++ bs)
reserve_then_insert m p xs bs =
    store_comm m p (p + length xs) xs bs (omega arith) ∙ sym (store-append m p xs bs)

-- The same at the cursor: PACKET_RESERVE, what is written behind the place, PACKET_INSERT of a
-- dword computed from where the cursor has come to.
pub reserve-insert :
    (c : Cursor) (bs : Bytes) (v : ℕ)
    → insert_at c.ptr (write_dword v) (after (reserve 4 c) bs) ≡ after c (dword v ++ bs)
unfolding insert_at
reserve-insert c bs v = rw ((write_dword-Writes v).run) (
    ap₂ (λ m p. record { memory = m; ptr = p })
      (ap (λ n. store (store c.memory (c.ptr + n) bs) c.ptr (dword v)) (sym (length-dword v))
        ∙ reserve_then_insert c.memory c.ptr (dword v) bs)
      (omega (arith, length-append (dword v) bs, length-dword v)))

payload_size : (start n : ℕ) → start + 4 + n - start - 4 ≡ n
payload_size start n = omega arith

-- Where the body of a packet emits the bytes `bs`, PACKET_START to PACKET_END emit the type, the
-- number of these bytes, which is filled in last, and the bytes.
pub packet-Emits :
    {body : Cursor → Cursor} {bs : Bytes} (type : ℕ)
    → Emits body bs
    → Emits (packet type body) (framed type bs)
unfolding packet
packet-Emits {body} {bs} type h = record {
  run = λ c.
      rw ((put-Emits (write_dword-Writes type)).run c, h.run)
        (rw (payload_size (c.ptr + length (dword type)) (length bs)) (
          reserve-insert (after c (dword type)) bs (length bs)
          ∙ after-append c (dword type) (dword (length bs) ++ bs)));
}

pub send-finish :
    {body : Cursor → Cursor} {bs : Bytes} (s : Pipe) (answer : Bool)
    → Emits body bs
    → s.locked ≡ false
    → send body answer s ≡ some (finish (record s { locked = true }) bs answer, length bs)
unfolding send lock
send-finish {bs} s answer h free =
    let e : s.head + length bs - s.head ≡ length bs = omega arith in rw (free, h.run, e)
