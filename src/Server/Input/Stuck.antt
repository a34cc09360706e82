-- ===== src/Server/Input/Stuck.antt =====
-- A request of a type that has no handler stays where it is.

use zephyr_xenlib.Common.Ring.Progress.{ring_read_lem}
use zephyr_xenlib.Server.Input.Partial.{IsPartial, buffered}
use zephyr_xenlib.Common.Ring.{ring_read, Interface}
use zephyr_xenlib.Errno.{enosys, Errno}
use zephyr_xenlib.Common.Ring.Queue.{requests, IsValid}
use zephyr_xenlib.Server.State.{xenstore_max_out_buf_num, Server, send_short, send_errno, InBuffer}
use zephyr_xenlib.Server.Input.{
  receive_for, process_received, complete, payload_read, word_at, message_handle_list, handler_at,
  header_size, process_message, receive_payload, receive_from, Received, with_more, Server, receive,
  read_more, handle_input,
}
use mathlib.Core.Path.{subst}
use zephyr_xenlib.Prelude.{
  ℕ, ◌-◌, ◌≤◌, ◌≡◌, refl, sym, ap, ◌∙◌, true, false, none, some, List, [], ◌∷◌, ◌++◌, append-nil,
  arith, length, ltb, ◌==◌,
}

-- While no more than 100 buffers wait the reply invalidates nothing, and does not touch the input.
errno_input :
    (id : ℕ) (e : Errno) (s : Server)
    → s.used_out_bufs ≤ xenstore_max_out_buf_num
    → ((send_errno id e s).inbuf ≡ s.inbuf)
      × ((send_errno id e s).domint ≡ s.domint)
      × ((send_errno id e s).invalidated ≡ s.invalidated)
unfolding send_errno send_short
errno_input id e s few =
    let room : ltb xenstore_max_out_buf_num s.used_out_bufs ≡ false = ground (arith, few) in
    ground (arith, room)

nothing_more : (b : InBuffer) (more : List ℕ) → length more ≤ 0 → with_more b more ≡ b
nothing_more b [] h = ap (λ xs. record b { got = xs }) (append-nil b.got)
nothing_more b (x ∷ xs) h = absurd (omega arith)

nothing_left :
    (more after before : List ℕ) → length more ≤ 0 → before ≡ more ++ after → after ≡ before
nothing_left [] after before h e = sym e
nothing_left (x ∷ xs) after before h e = absurd (omega arith)

-- A read of no byte.
read_more-nothing :
    (b : InBuffer) (next : InBuffer → Server → Received) (s : Server)
    → b.allocated ≡ true
    → IsValid s.domint
    → (i : Interface) × (read_more 0 b next s ≡ next b (record s { domint = i; inbuf = some b }))
      × (requests i ≡ requests s.domint)
      × IsValid i
unfolding read_more
read_more-nothing b next s there v =
    let (more, ran, size, split, _, sound) = ring_read_lem false s.domint 0 v in
    (
      (ring_read s.domint 0 false).1,
      rw (ran, buffered b there, read_more)
          (ap (λ x. next x (record s { domint = (ring_read s.domint 0 false).1; inbuf = some x }))
            (nothing_more b more (omega (arith, size)))),
      nothing_left more (requests (ring_read s.domint 0 false).1) (requests s.domint)
          (omega (arith, size)) split,
      sound,
    )

-- The whole request is taken up again.
receive_from-again :
    (b : InBuffer) (s : Server)
    → IsPartial b
    → header_size ≤ length b.got
    → length b.got ≡ b.total_size
    → IsValid s.domint
    → (i : Interface) × (receive_from b s
        ≡ complete b.got (record s { domint = i; inbuf = some b }))
      × (requests i ≡ requests s.domint)
      × IsValid i
unfolding receive_from receive_payload
receive_from-again b s p full whole v =
    let (i, ran, same, sound) = read_more-nothing b payload_read s p.there v in
    (i, rw (no_header, no_more, ran, done) refl, same, sound)
  where
    no_header : ltb (length b.got) header_size ≡ false
    no_header = ground (arith, full)

    no_more : b.total_size - length b.got ≡ 0
    no_more = omega (arith, whole)

    done : (length b.got == b.total_size) ≡ true
    done = ground (arith, whole)

process_message-unknown :
    (message : List ℕ) (s : Server)
    → handler_at message_handle_list (word_at message 0) ≡ none
    → process_message message s ≡ some (send_errno 0 enosys s)
unfolding process_message
process_message-unknown message s unknown = rw (unknown, process_message) refl

-- A whole request whose type has no handler, on a sound ring, while no more than 100 buffers wait:
-- handle_input ends, the connection is not invalidated, and the same request stands in `in` on a sound
-- ring of which not one byte is taken. So the state is again as the theorem asks, but for the number of
-- buffers that wait.
pub handle_input-stuck :
    (b : InBuffer) (s : Server)
    → IsPartial b
    → header_size ≤ length b.got
    → length b.got ≡ b.total_size
    → s.inbuf ≡ some b
    → IsValid s.domint
    → handler_at message_handle_list (word_at b.got 0) ≡ none
    → s.used_out_bufs ≤ xenstore_max_out_buf_num
    → (s' : Server) × (handle_input s ≡ some s')
      × (s'.inbuf ≡ some b)
      × (requests s'.domint ≡ requests s.domint)
      × IsValid s'.domint
      × (s'.invalidated ≡ s.invalidated)
unfolding handle_input receive
handle_input-stuck b s p full whole here v unknown few =
    let (i, ran, same, sound) = receive_from-again b s p full whole v in
    let s1 : Server = record s { domint = i; inbuf = some b } in
    let (kept, ring, alive) = errno_input 0 enosys s1 few in
    (
      send_errno 0 enosys s1,
      ap (λ o. process_received (receive_for o s)) here
          ∙ ap process_received ran
          ∙ process_message-unknown b.got s1 unknown,
      kept,
      ap requests ring ∙ same,
      subst IsValid (sym ring) sound,
      alive,
    )
