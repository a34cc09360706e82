-- ===== src/Server/Input/Assembled.antt =====
-- handle_input puts requests together from the pieces that the ring brings.

use zephyr_xenlib.Common.Ring.Progress.{ring_read_lem}
use zephyr_xenlib.Common.Ring.{ring_read, Interface}
use zephyr_xenlib.Common.Ring.Queue.{requests, IsValid}
use zephyr_xenlib.Server.State.{xenstore_payload_max, InBuffer, Server}
use zephyr_xenlib.Server.Input.{
  receive_for, new_input, receive_from, receive, header_read, payload_read, with_more,
  xenstore_payload_max, read_more, Received, word_at, header_size, receive_payload,
}
use zephyr_xenlib.Buffer.{sub32}
use zephyr_xenlib.Buffer.Window.{length-window}
use zephyr_xenlib.Server.Input.Words.{word_at-append}
use zephyr_xenlib.Server.Input.Partial.{
  expected, IsPartial, InputIsPartial, so_far, unhandled, one_more, Parted, buffered,
}
use zephyr_xenlib.Prelude.{
  ℕ, ◌+◌, ◌-◌, ◌≤◌, ◌<◌, min, ◌≡◌, refl, sym, ap, ◌∙◌, inl, inr, true, false, not, Option, none,
  some, List, [], ◌++◌, append_assoc, arith, length, length-append, ltb, ◌==◌, ltb→lt, Bool-cases,
}

-- A read on a sound ring, before what `next` does.
read_more-Parted :
    (want : ℕ) (b : InBuffer) (next : InBuffer → Server → Received) (before : List ℕ) (least : ℕ)
    (s : Server)
    → b.allocated ≡ true
    → IsValid s.domint
    → before ≡ b.got ++ requests s.domint
    → ((more : List ℕ) (i : Interface)
        → length more ≤ want
        → min want (min 1 (length (requests s.domint))) ≤ length more
        → IsValid i
        → before ≡ (b.got ++ more) ++ requests i
        → Parted before least
            (next (with_more b more) (record s { domint = i; inbuf = some (with_more b more) })))
    → Parted before least (read_more want b next s)
unfolding read_more
read_more-Parted want b next before least s there v whole k =
    let count : length (requests s.domint) ≡ sub32 s.domint.req_prod s.domint.req_cons =
      length-window 1024 s.domint.req s.domint.req_cons
        (sub32 s.domint.req_prod s.domint.req_cons) in
    let (more, ran, size, split, _, sound) = ring_read_lem false s.domint want v in
    rw (ran, buffered b there, read_more)
      (k more (ring_read s.domint want false).1 (omega (arith, size)) (omega (arith, size, count))
        sound
        (whole
          ∙ ap (λ x. b.got ++ x) split
          ∙ sym (append_assoc b.got more (requests (ring_read s.domint want false).1))))

receive_payload-Parted :
    (b : InBuffer) (before : List ℕ) (least : ℕ) (s : Server)
    → IsPartial b
    → header_size ≤ length b.got
    → IsValid s.domint
    → before ≡ b.got ++ requests s.domint
    → least ≤ length b.got + min 1 (length (requests s.domint))
    → Parted before least (receive_payload b s)
unfolding receive_payload
receive_payload-Parted b before least s p full v whole enough =
    read_more-Parted (b.total_size - length b.got) b payload_read before least s p.there v whole go
  where
    go :
        (more : List ℕ) (i : Interface)
        → length more ≤ b.total_size - length b.got
        → min (b.total_size - length b.got) (min 1 (length (requests s.domint))) ≤ length more
        → IsValid i
        → before ≡ (b.got ++ more) ++ requests i
        → Parted before least (
            payload_read
              (with_more b more)
              (record s { domint = i; inbuf = some (with_more b more) }))
    go more i few some_read sound split =
        let size : length (b.got ++ more) ≡ length b.got + length more = length-append b.got more in
        let same : word_at (b.got ++ more) 12 ≡ word_at b.got 12 =
          word_at-append b.got more 12 (omega arith) in
        let total : b.total_size ≡ header_size + word_at b.got 12 = ground (arith, p.total, full) in
        elim (Bool-cases (length (b.got ++ more) == b.total_size)) [
          | inl done ↦
              let all : length (b.got ++ more) ≡ b.total_size = ground (arith, done) in
              rw done (split, omega (arith, same, total, all), omega (arith, same, p.short full))
          | inr part ↦
              let short : length (b.got ++ more) < b.total_size =
                ground (arith, part, size, few, p.room) in
              let expects : b.total_size ≡ expected (b.got ++ more) =
                ground (arith, same, total, size, full) in
              rw part (
                inl (
                  sym split,
                  (
                    record {
                      there = p.there;
                      total = expects;
                      room = omega (arith, short);
                      short = λ h. omega (arith, same, p.short full);
                    },
                    omega (arith, short, expects),
                  ),
                  omega (arith, size, short, some_read, enough, p.room),
                ))
        ]

header_read-Parted :
    (b : InBuffer) (before : List ℕ) (least : ℕ) (s : Server)
    → b.allocated ≡ true
    → b.total_size ≡ header_size
    → length b.got ≤ header_size
    → IsValid s.domint
    → s.mem ≡ []
    → s.inbuf ≡ some b
    → before ≡ b.got ++ requests s.domint
    → least ≤ length b.got
    → Parted before least (header_read b s)
unfolding header_read
header_read-Parted b before least s there total room v m here whole enough =
    elim (Bool-cases (length b.got == header_size)) [
      | inr part ↦
          let few : length b.got < header_size = ground (arith, part, room) in
          rw (part, header_read)
            (inl (
              rw here (sym whole),
              rw here (
                record {
                  there = there;
                  total = ground (arith, total, few);
                  room = omega (arith, total, few);
                  short = λ h. absurd (omega (arith, h, few));
                },
                ground (arith, few),
              ),
              rw here enough,
            ))
      | inl full ↦ elim (Bool-cases (ltb xenstore_payload_max (word_at b.got 12))) [
        | inl long ↦
            rw (full, ap not there, long, header_read)
              (inr (b.got, whole, ground (arith, full), ltb→lt _ _ long, refl))
        | inr fits ↦
            rw (full, ap not there, fits, m, header_read)
              (receive_payload-Parted grown before least (record s { mem = []; inbuf = some grown })
                (record {
                  there = refl;
                  total = ground (arith, total, full);
                  room = ground (arith, total, full);
                  short = λ h. ground (arith, fits);
                })
                (ground (arith, full)) v whole (omega (arith, enough)))
      ]
    ]
  where
    grown : InBuffer
    grown = record b { total_size = b.total_size + word_at b.got 12; allocated = true }

receive_from-Parted :
    (b : InBuffer) (before : List ℕ) (least : ℕ) (s : Server)
    → IsPartial b
    → IsValid s.domint
    → s.mem ≡ []
    → before ≡ b.got ++ requests s.domint
    → least ≤ length b.got + min 1 (length (requests s.domint))
    → Parted before least (receive_from b s)
unfolding receive_from
receive_from-Parted b before least s p v m whole enough =
    elim (Bool-cases (ltb (length b.got) header_size)) [
      | inr payload ↦
          rw (payload, receive_from)
            (receive_payload-Parted b before least s p (ground (arith, payload)) v whole enough)
      | inl header ↦
          rw (header, receive_from)
            (read_more-Parted (header_size - length b.got) b header_read before least s p.there v
              whole
              (λ more i few some_read sound split.
                header_read-Parted (with_more b more) before least
                  (record s { domint = i; inbuf = some (with_more b more) }) p.there
                  (ground (arith, p.total, header))
                  (omega (arith, length-append b.got more, few, ltb→lt _ _ header)) sound m refl
                  split
                  (omega (arith, length-append b.got more, some_read, enough, ltb→lt _ _ header))))
    ]

-- handle_input up to the message, on a sound ring and while memory lasts, for a request of which any
-- number of bytes is read already: it is defined, and no byte is lost or taken twice. Either the request
-- is not whole yet, at least one byte more of it is read where the ring has one, and the bytes read and
-- those in the ring are the same sequence as before; or they are the whole message, as long as its
-- header says and with at most 4096 bytes of payload, and behind it what is in the ring; or the header
-- asks for more than 4096 bytes, and it alone is dropped, so that the payload is taken for the next
-- request.
pub receive-Parted :
    (s : Server)
    → InputIsPartial s.inbuf
    → IsValid s.domint
    → s.mem ≡ []
    → Parted (unhandled s) (one_more s) (receive s)
unfolding receive
receive-Parted s p v m = go s.inbuf p
  where
    go :
        (o : Option InBuffer)
        → InputIsPartial o
        → Parted
            (so_far o ++ requests s.domint)
            (length (so_far o) + min 1 (length (requests s.domint)))
            (receive_for o s)
    go none q = rw m (
        receive_from-Parted (new_input true) (requests s.domint)
          (0 + min 1 (length (requests s.domint)))
          (record s { mem = []; inbuf = some (new_input true) })
          (record {
            there = refl;
            total = refl;
            room = omega arith;
            short = λ h. absurd (omega (arith, h));
          })
          v refl refl (omega arith))
    go (some b) q =
        receive_from-Parted b (b.got ++ requests s.domint)
          (length b.got + min 1 (length (requests s.domint))) s q v m refl (omega arith)
