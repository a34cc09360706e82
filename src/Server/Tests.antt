-- ===== src/Server/Tests.antt =====
-- Runs of a connection's output at concrete inputs.
use zephyr_xenlib.Clib.{str_eq, strip_prefix}
use zephyr_xenlib.Store.Path.{path_contains}
use zephyr_xenlib.Store.Tree.{
  is_root_path, check_perms, key_to_entry, key_to_entry_check_perm, find,
}
use zephyr_xenlib.Prelude.{zero, suc, ◌≡◌, refl, true, false, none, some, [], ◌∷◌, arith}
use zephyr_xenlib.Common.Tests.{wrapping, wrapping-IsValid}
use zephyr_xenlib.Errno.{ok}
use zephyr_xenlib.Store.Tests.{tree, path_ab, path_c}
use zephyr_xenlib.Server.Watch.{
  queue_pending_watch_event, watch_at, change_at, watch_entry_put, remove_watch_entry,
}
use zephyr_xenlib.Server.Watch.Events.{
  process_pending_watch_events, remove_watches, drop_pending, cleanup_domain_watches,
  queue_watch_notifications,
}
use zephyr_xenlib.Server.Watch.Refs.{IsCounted}
use zephyr_xenlib.Server.Watch.Counted.{SameList}
use zephyr_xenlib.Server.Watch.Total.{process_pending-total, Prefixed}
use zephyr_xenlib.Server.Watch.Notified.{queue_watch_notifications-IsCounted}
use zephyr_xenlib.Server.State.{Server, can_write, drain, send_reply_sz}
use zephyr_xenlib.Server.State.Stream.{stream, IsReady, drain_lem}
use zephyr_xenlib.Server.State.Reply.{send_reply_sz_lem, Sent}

-- Two buffers wait, and the ring's producer index is about to wrap around.
abbrev pub busy : Server
busy = record {
  domid = 1;
  inbuf = none;
  out_list = (1 ∷ 2 ∷ 3 ∷ []) ∷ (4 ∷ []) ∷ [];
  used_out_bufs = 2;
  domint = wrapping;
  transaction = 0;
  running_transaction = 0;
  stop_transaction_id = 0;
  pending_stop_transaction = false;
  invalidated = none;
  stack_word = 7;
  mem = [];
  root = tree;
  watches = [];
  pending = [];
  local_events = [];
  locks = [];
}

pub busy-IsReady : IsReady busy
busy-IsReady = record {
  ring = wrapping-IsValid;
  counted = refl;
  filled = (omega arith, (omega arith, tt));
}

drain_lem_example :
    (can_write (drain 4 busy) ≡ false)
    × (stream (drain 4 busy) ≡ stream busy)
    × IsReady (drain 4 busy)
drain_lem_example = drain_lem 4 busy busy-IsReady (omega arith)

-- XS_READ is 2.
send_reply_sz_lem_example :
    let s' = send_reply_sz 9 2 (b'o' ∷ b'k' ∷ []) busy in
    IsReady s' × Sent 9 2 (b'o' ∷ b'k' ∷ []) busy s'
send_reply_sz_lem_example = send_reply_sz_lem 9 2 (b'o' ∷ b'k' ∷ []) busy busy-IsReady

-- The guest 1 watches /ab: the watch is on the list, and an event waits for it.
abbrev pub watched : Server
watched = record busy {
  watches =
      record {
        path = path_ab;
        token = b't' ∷ [];
        domain = some 1;
        is_relative = false;
        linked = true;
        ref = 2;
      }
      ∷ [];
  pending = record { event_path = path_c; watch = 0 } ∷ [];
}

pub watched-IsCounted : IsCounted watched
watched-IsCounted zero = refl
watched-IsCounted (suc n) = refl

watched-Prefixed : Prefixed 1 watched.watches watched.pending
watched-Prefixed = (λ r. cc r, tt)

process_pending-total_example :
    (s' : Server) × (process_pending_watch_events watched ≡ some s') × IsCounted s'
process_pending-total_example = process_pending-total watched watched-IsCounted watched-Prefixed

-- The guest 1 goes away: the watch is freed, and nothing waits for it.
abbrev cleaned : Server
cleaned = record watched {
  watches =
      record {
        path = path_ab;
        token = b't' ∷ [];
        domain = some 1;
        is_relative = false;
        linked = false;
        ref = 0;
      }
      ∷ [];
  pending = [];
}

cleaned_up : cleanup_domain_watches (some 1) watched ≡ some cleaned
unfolding cleanup_domain_watches remove_watches remove_watch_entry watch_entry_put change_at
    watch_at drop_pending
cleaned_up = refl

-- /ab/c changes: one more event waits, and the watch has one more reference.
abbrev notified : Server
notified = record watched {
  watches =
      record {
        path = path_ab;
        token = b't' ∷ [];
        domain = some 1;
        is_relative = false;
        linked = true;
        ref = 3;
      }
      ∷ [];
  pending =
      record { event_path = path_c; watch = 0 } ∷ record { event_path = path_c; watch = 0 } ∷ [];
}

notified_c : queue_watch_notifications path_c false watched ≡ some (ok tt, notified)
unfolding queue_watch_notifications path_contains str_eq is_root_path strip_prefix
    key_to_entry_check_perm key_to_entry find check_perms queue_pending_watch_event change_at
notified_c = refl

queue_watch_notifications-IsCounted_example : IsCounted notified × SameList watched notified
queue_watch_notifications-IsCounted_example =
    queue_watch_notifications-IsCounted path_c false watched notified (ok tt) watched-IsCounted
      notified_c
