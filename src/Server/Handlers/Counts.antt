-- ===== src/Server/Handlers/Counts.antt =====
-- Replies and notifications keep the reference counts of watches right.

use zephyr_xenlib.Prelude.{ℕ, ◌+◌, ◌≡◌, refl, Bool, Option, none, some, List, [], ◌∷◌, arith}
use zephyr_xenlib.Errno.{Errno, Result}
use zephyr_xenlib.Server.State.{
  send_errno, send_reply_sz, send_short, invalidate_client, Server, PendingEvent,
}
use zephyr_xenlib.Server.Watch.{watch_entry_put}
use zephyr_xenlib.Server.Watch.Events.{
  dispatch, dispatch_local_watch_events, queue_watch_notifications,
}
use zephyr_xenlib.Server.Watch.Counted.{Holds}
use zephyr_xenlib.Server.Keeps.{Both}
use zephyr_xenlib.Server.Watch.Refs.{link_at, count, Balanced, Balanced-put, IsCounted}
use zephyr_xenlib.Server.Watch.Notified.{queue_watch_notifications-IsCounted}

dispatch-Balanced :
    (es : List PendingEvent) (base : ℕ → ℕ) (s : Server)
    → Balanced (λ n. base n + count es n) s.watches
    → Balanced base (dispatch es s).watches
      × ((dispatch es s).pending ≡ s.pending)
      × ((dispatch es s).local_events ≡ s.local_events)
unfolding dispatch watch_entry_put
dispatch-Balanced [] base s b = (λ n. omega (arith, b n), refl, refl)
dispatch-Balanced (e ∷ es) base s b =
    dispatch-Balanced es base (watch_entry_put e.watch s)
      (Balanced-put (λ n. base n + count es n) s.watches e.watch (λ n. omega (arith, b n)))

pub dispatch-IsCounted : (s : Server) → IsCounted s → IsCounted (dispatch_local_watch_events s)
unfolding dispatch_local_watch_events
dispatch-IsCounted s c =
    let (b, same, none_left) =
      dispatch-Balanced s.local_events (count s.pending) (record s { local_events = [] }) c in
    rw (same, none_left) (λ n. omega (arith, b n))

pub notified-IsCounted :
    (path : List ℕ) (recursive : Bool) (s : Server)
    → IsCounted s
    → Holds (Both IsCounted) (queue_watch_notifications path recursive s)
notified-IsCounted path recursive s c = go (queue_watch_notifications path recursive s) refl
  where
    go :
        (o : Option (Result (Unit {0}) × Server))
        → queue_watch_notifications path recursive s ≡ o
        → Holds (Both IsCounted) o
    go none e = tt
    go (some (r, s')) e = (queue_watch_notifications-IsCounted path recursive s s' r c e).0

-- A reply leaves the watches and the events alone.
pub errno-IsCounted :
    (id : ℕ) (e : Errno) (s : Server) → IsCounted s → IsCounted (send_errno id e s)
unfolding send_errno send_short invalidate_client
errno-IsCounted id e s c n = ground (arith, c n)

pub reply-IsCounted :
    (id type : ℕ) (payload : List ℕ) (s : Server)
    → IsCounted s
    → IsCounted (send_reply_sz id type payload s)
unfolding send_reply_sz send_errno send_short invalidate_client
reply-IsCounted id type payload s c n = ground (arith, c n)

-- A reply leaves the list of watches as it is.
pub reply-linked :
    (id type : ℕ) (payload : List ℕ) (s : Server) (n : ℕ)
    → link_at (send_reply_sz id type payload s).watches n ≡ link_at s.watches n
unfolding send_reply_sz send_errno send_short invalidate_client
reply-linked id type payload s n = ground arith
