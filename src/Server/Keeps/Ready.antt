-- ===== src/Server/Keeps/Ready.antt =====
-- The small operations keep the output of a connection ready.

use zephyr_xenlib.Server.Keeps.Dropped.{cleaned-Quiet, unwatch_found-Quiet, dispatched-Quiet}
use zephyr_xenlib.Server.Watch.{key_to_watcher}
use zephyr_xenlib.Store.Tree.{is_abs_path}
use zephyr_xenlib.Server.Keeps.Replying.{fired-Quiet, watch_path-Quiet}
use zephyr_xenlib.Common.Ring.Progress.{ring_read_lem}
use zephyr_xenlib.Server.State.Reply.{
  IsReady-invalidate, send_errno_lem, send_reply_sz_lem, IsReady-mem,
}
use zephyr_xenlib.Common.Ring.{ring_read}
use zephyr_xenlib.Server.State.Stream.{handle_output-IsReady, IsReady}
use zephyr_xenlib.Errno.{Errno}
use zephyr_xenlib.Server.State.{send_reply_sz, send_errno, Server}
use zephyr_xenlib.Prelude.{ℕ, ◌≡◌, refl, false, not, some, List}
use zephyr_xenlib.Server.Keeps.{Keeps}
use zephyr_xenlib.Server.Keeps.Quiet.{notified-Quiet, Quiet}

same_output :
    (s s' : Server)
    → s'.domint ≡ s.domint
    → s'.out_list ≡ s.out_list
    → s'.used_out_bufs ≡ s.used_out_bufs
    → IsReady s
    → IsReady s'
same_output s s' d o u r = record {
  ring = rw d r.ring;
  counted = rw (o, u) r.counted;
  filled = rw o r.filled;
}

IsReady-Quiet : Quiet IsReady
IsReady-Quiet = record {
  memory = IsReady-mem;
  locked = λ s ls r. same_output s (record s { locks = ls }) refl refl refl r;
  events = λ s ws ps es r.
      same_output s (record s { watches = ws; pending = ps; local_events = es }) refl refl refl r;
}

received-IsReady :
    (s : Server) (want : ℕ)
    → IsReady s
    → IsReady (record s { domint = (ring_read s.domint want false).1 })
received-IsReady s want r = record {
  ring = (ring_read_lem false s.domint want r.ring).5;
  counted = r.counted;
  filled = r.filled;
}

replied-IsReady :
    (id type : ℕ) (payload : List ℕ) (s : Server)
    → IsReady s
    → IsReady (send_reply_sz id type payload s)
replied-IsReady id type payload s r = (send_reply_sz_lem id type payload s r).0

refused-IsReady : (id : ℕ) (e : Errno) (s : Server) → IsReady s → IsReady (send_errno id e s)
refused-IsReady id e s r = (send_errno_lem id e s r).0

pub IsReady-Keeps : Keeps IsReady
IsReady-Keeps = record {
  memory = IsReady-mem;
  locked = IsReady-Quiet.locked;
  tree = λ s root r. same_output s (record s { root = root }) refl refl refl r;
  input = λ s b r. same_output s (record s { inbuf = b }) refl refl refl r;
  started = λ s t n r.
      same_output s (record s { transaction = t; running_transaction = n }) refl refl refl r;
  stopping = λ s id b n r.
      same_output s
        (record s {
          stop_transaction_id = id;
          pending_stop_transaction = b;
          running_transaction = n;
        })
        refl refl refl r;
  invalid = IsReady-invalidate;
  received = received-IsReady;
  replied = replied-IsReady;
  refused = refused-IsReady;
  notified = notified-Quiet IsReady IsReady-Quiet;
  dispatched = dispatched-Quiet IsReady IsReady-Quiet;
  watched = λ id text path token m m' s made.
      watch_path-Quiet IsReady IsReady-Quiet replied-IsReady refused-IsReady id path token
        (not (is_abs_path text)) s;
  unwatched = λ path token s.
      unwatch_found-Quiet IsReady IsReady-Quiet (key_to_watcher path token (some s.domid) s.watches)
        s;
  fired = fired-Quiet IsReady IsReady-Quiet replied-IsReady refused-IsReady;
  cleaned = cleaned-Quiet IsReady IsReady-Quiet;
  written = handle_output-IsReady;
}
