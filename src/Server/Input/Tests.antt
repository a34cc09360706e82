-- ===== src/Server/Input/Tests.antt =====
-- Runs of the input and of the event thread at concrete inputs.

use zephyr_xenlib.Server.Watch.Events.{process, process_pending_watch_events}
use zephyr_xenlib.Server.Input.Stuck.{handle_input-stuck}
use zephyr_xenlib.Common.Tests.{wrapping, wrapping-IsValid}
use zephyr_xenlib.Common.Ring.Queue.{requests, IsValid}
use zephyr_xenlib.Common.Ring.{ring_read}
use zephyr_xenlib.Server.State.{can_read, drain, Server, InBuffer}
use zephyr_xenlib.Server.Watch.Counted.{Holds}
use zephyr_xenlib.Server.Input.Assembled.{receive-Parted}
use zephyr_xenlib.Server.Input.Partial.{IsPartial, unhandled, one_more, Parted}
use zephyr_xenlib.Server.Input.{
  process_pending_watch_events, can_read, take_input, send_events, ring_read, receive,
  end_transaction, drain, message_handle_list, handle_input, wake_up, word_at, handler_at, turn,
}
use zephyr_xenlib.Server.Keeps.Reached.{
  then_step, here, thread, reads, turn-IsSane, reached-IsSane, Written, IsSane,
}
use zephyr_xenlib.Server.Input.Replied.{Says, send_reply_sz-word_at}
use zephyr_xenlib.Server.State.{send_reply_sz}
use zephyr_xenlib.Server.State.Stream.{stream}
use zephyr_xenlib.Prelude.{ℕ, ◌≡◌, refl, true, none, some, List, [], ◌∷◌, ◌++◌, arith}
use zephyr_xenlib.Server.Tests.{busy, busy-IsReady, watched, watched-IsCounted}

-- Two bytes of a request are read.
abbrev begun : Server
begun = record busy {
  inbuf = some (record { got = 2 ∷ 0 ∷ []; total_size = 16; allocated = true });
}

receive-Parted_example : Parted (unhandled begun) (one_more begun) (receive begun)
receive-Parted_example =
    receive-Parted begun
      (record {
        there = refl;
        total = refl;
        room = omega arith;
        short = λ h. absurd (omega (arith, h));
      })
      wrapping-IsValid refl

-- A request of the type 9, XS_RELEASE, without a payload.
abbrev unknown : InBuffer
unknown = record {
  got = 9 ∷ 0 ∷ 0 ∷ 0 ∷ 0 ∷ 0 ∷ 0 ∷ 0 ∷ 0 ∷ 0 ∷ 0 ∷ 0 ∷ 0 ∷ 0 ∷ 0 ∷ 0 ∷ [];
  total_size = 16;
  allocated = true;
}

abbrev waiting_unknown : Server
waiting_unknown = record busy { inbuf = some unknown }

unknown-IsPartial : IsPartial unknown
unfolding word_at
unknown-IsPartial = record {
  there = refl;
  total = refl;
  room = omega arith;
  short = λ h. omega arith;
}

no_handler : handler_at message_handle_list (word_at unknown.got 0) ≡ none
unfolding handler_at message_handle_list word_at
no_handler = refl

handle_input-stuck_example :
    (s' : Server) × (handle_input waiting_unknown ≡ some s')
    × (s'.inbuf ≡ some unknown)
    × (requests s'.domint ≡ requests waiting_unknown.domint)
    × IsValid s'.domint
    × (s'.invalidated ≡ none)
handle_input-stuck_example =
    handle_input-stuck unknown waiting_unknown unknown-IsPartial (omega arith) refl refl
      wrapping-IsValid no_handler (omega arith)

turn-IsSane_example : Holds Written (turn watched)
turn-IsSane_example =
    turn-IsSane watched
      (record { ring = wrapping-IsValid; counted = refl; filled = busy-IsReady.filled })
      watched-IsCounted

-- The client waits for replies and has sent nothing. The thread writes the two buffers out as far as
-- the ring has room, and the client reads three bytes.
abbrev quiet : Server
quiet = record busy { domint = record wrapping { req_prod = 1 } }

quiet-IsSane : IsSane quiet
quiet-IsSane = (
  record {
    ring = record {
      req_sound = record {
        whole = wrapping-IsValid.req_sound.whole;
        cons_in = omega arith;
        prod_in = omega arith;
        apart = omega arith;
      };
      rsp_sound = wrapping-IsValid.rsp_sound;
    };
    counted = refl;
    filled = busy-IsReady.filled;
  },
  λ n. refl,
)

turned : turn quiet ≡ some (drain 4 quiet)
unfolding turn wake_up end_transaction send_events take_input can_read process_pending_watch_events
    process
turned = refl

abbrev read_out : Server
read_out = record (drain 4 quiet) { domint = (ring_read (drain 4 quiet).domint 3 true).1 }

reached-IsSane_example : IsSane read_out
reached-IsSane_example =
    reached-IsSane quiet read_out quiet-IsSane
      (then_step (then_step here (thread turned)) (reads 3))

-- XS_READ is 2.
send_reply_sz-word_at_example :
    (message : List ℕ) × (stream (send_reply_sz 9 2 (b'o' ∷ b'k' ∷ []) busy)
      ≡ stream busy ++ message)
    × Says 2 9 (b'o' ∷ b'k' ∷ []) message
    × ((send_reply_sz 9 2 (b'o' ∷ b'k' ∷ []) busy).invalidated ≡ none)
send_reply_sz-word_at_example =
    send_reply_sz-word_at 9 2 (b'o' ∷ b'k' ∷ []) busy refl (omega arith) (omega arith) (omega arith)
