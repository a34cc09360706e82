-- ===== src/Server/Keeps/Receive.antt =====
-- Receiving a request keeps what the small operations keep.

use zephyr_xenlib.Common.Ring.{ring_read}
use zephyr_xenlib.Store.Alloc.{k_malloc, Mem}
use zephyr_xenlib.Errno.{enomem, Result, ok, err}
use zephyr_xenlib.Server.Input.{
  receive_for, with_more, fault, new_input, complete, header_size, word_at, payload_read, returned,
  receive_from, receive, Received, header_read, read_more, receive_payload,
}
use zephyr_xenlib.Server.State.{invalidate_client, xenstore_payload_max, InBuffer, Server}
use zephyr_xenlib.Server.Input.{near_null, fault}
use zephyr_xenlib.Prelude.{
  ℕ, ◌+◌, ◌-◌, inl, inr, Bool, true, false, Option, none, some, List, length, ltb, ◌==◌,
  if◌then◌else◌, Bool-cases,
}
use zephyr_xenlib.Server.Keeps.{Keeps}

-- A property of the state that `receive` leaves.
abbrev pub Leaves : (Server → Type 0) → Received → Type 0
Leaves P fault = Unit
Leaves P (returned s) = P s
Leaves P (complete message s) = P s

module _ (P : Server → Type 0) (k : Keeps P) where
  read_more-Keeps :
      (want : ℕ) (b : InBuffer) (next : InBuffer → Server → Received) (s : Server)
      → ((b1 : InBuffer) (s1 : Server) → P s1 → Leaves P (next b1 s1))
      → P s
      → Leaves P (read_more want b next s)
  unfolding read_more
  read_more-Keeps want b next s n p = go (ring_read s.domint want false).0
    where
      s1 : Server
      s1 = record s { domint = (ring_read s.domint want false).1 }

      p1 : P s1
      p1 = k.received s want p

      got_more :
          (more : List ℕ) (lost : Bool)
          → Leaves P (
              if lost
              then fault
              else next (with_more b more) (record s1 { inbuf = some (with_more b more) }))
      got_more more true = tt
      got_more more false =
          n (with_more b more) (record s1 { inbuf = some (with_more b more) })
            (k.input s1 (some (with_more b more)) p1)

      go :
          (r : Result (List ℕ))
          → Leaves P (elim r [
            | err e ↦ returned (invalidate_client e s1)
            | ok more ↦
                if near_null b
                then fault
                else next (with_more b more) (record s1 { inbuf = some (with_more b more) })
          ])
      go (err e) = k.invalid e s1 p1
      go (ok more) = got_more more (near_null b)

  receive_payload-Keeps : (b : InBuffer) (s : Server) → P s → Leaves P (receive_payload b s)
  unfolding receive_payload
  receive_payload-Keeps b s p =
      read_more-Keeps (b.total_size - length b.got) b payload_read s
        (λ b1 s1. go b1 s1 (length b1.got == b1.total_size)) p
    where
      go :
          (b1 : InBuffer) (s1 : Server) (whole : Bool)
          → P s1
          → Leaves P (if whole then complete b1.got s1 else returned s1)
      go b1 s1 true p1 = p1
      go b1 s1 false p1 = p1

  header_read-Keeps : (b : InBuffer) (s : Server) → P s → Leaves P (header_read b s)
  unfolding header_read
  header_read-Keeps b s p = elim (Bool-cases (length b.got == header_size)) [
    | inr part ↦ rw (part, header_read) p
    | inl whole ↦ elim (Bool-cases b.allocated) [
      | inr null ↦ rw (whole, null, header_read) tt
      | inl there ↦ elim (Bool-cases (ltb xenstore_payload_max (word_at b.got 12))) [
        | inl long ↦ rw (whole, there, long, header_read) (k.input s none p)
        | inr short ↦ elim (Bool-cases (k_malloc s.mem).0) [
          | inr failed ↦
              rw (whole, there, short, failed, header_read)
                (k.invalid enomem (grown_in false) (p1 false))
          | inl got ↦
              rw (whole, there, short, got, header_read)
                (receive_payload-Keeps (grown true) (grown_in true) (p1 true))
        ]
      ]
    ]
  ]
    where
      grown : Bool → InBuffer
      grown got = record b { total_size = b.total_size + word_at b.got 12; allocated = got }

      grown_in : Bool → Server
      grown_in got = record s { mem = (k_malloc s.mem).1; inbuf = some (grown got) }

      p1 : (got : Bool) → P (grown_in got)
      p1 got =
          k.input (record s { mem = (k_malloc s.mem).1 }) (some (grown got))
            (k.memory s (k_malloc s.mem).1 p)

  receive_from-Keeps : (b : InBuffer) (s : Server) → P s → Leaves P (receive_from b s)
  unfolding receive_from
  receive_from-Keeps b s p = elim (Bool-cases (ltb (length b.got) header_size)) [
    | inl header ↦
        rw (header, receive_from)
          (read_more-Keeps (header_size - length b.got) b header_read s header_read-Keeps p)
    | inr payload ↦ rw (payload, receive_from) (receive_payload-Keeps b s p)
  ]

  pub receive-Keeps : (s : Server) → P s → Leaves P (receive s)
  unfolding receive
  receive-Keeps s p = go s.inbuf
    where
      m1 : Mem
      m1 = (k_malloc s.mem).1

      m2 : Mem
      m2 = (k_malloc m1).1

      p2 : (got : Bool) → P (record s { mem = m2; inbuf = some (new_input got) })
      p2 got = k.input (record s { mem = m2 }) (some (new_input got)) (k.memory s m2 p)

      go : (o : Option InBuffer) → Leaves P (receive_for o s)
      go (some b) = receive_from-Keeps b s p
      go none = elim (Bool-cases (k_malloc s.mem).0) [
        | inr failed ↦ rw failed (k.invalid enomem (record s { mem = m1 }) (k.memory s m1 p))
        | inl got ↦ elim (Bool-cases (k_malloc m1).0) [
          | inr failed ↦
              rw (got, failed)
                (k.invalid enomem (record s { mem = m2; inbuf = some (new_input false) })
                  (p2 false))
          | inl got2 ↦
              rw (got, got2)
                (receive_from-Keeps (new_input true)
                  (record s { mem = m2; inbuf = some (new_input true) }) (p2 true))
        ]
      ]
