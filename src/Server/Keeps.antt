-- ===== src/Server/Keeps.antt =====
-- What a property of the server's state has to be kept by, for the event thread to keep it: the small
-- operations that the handlers are built of. The modules below show it for each handler and for a turn
-- of the loop, whatever the property.
pub mod Replies
pub mod Changes
pub mod Settings
pub mod Receive
pub mod Turn
pub mod Counted
pub mod Quiet
pub mod Dropped
pub mod Replying
pub mod Ready
pub mod Reached
use zephyr_xenlib.Prelude.{
  ℕ, zero, suc, ◌+◌, ◌-◌, ◌*◌, ◌/◌, ◌%◌, ◌^◌, ◌≤◌, ◌<◌, min, max, ◌≡◌, refl, sym, ap, ◌∙◌, ◌≢◌, ◌↔◌,
  ◌⊎◌, inl, inr, Bool, true, false, not, ◌&&◌, ◌||◌, Option, none, some, List, [], ◌∷◌, ◌++◌, map,
  append-nil, append_assoc, arith, ℕ_discrete, length, set, get_or, take, drop, replicate,
  length-append, length-set, get_or-set_self, get_or-set_ne, take-append-drop, length-take,
  length-drop, length-replicate, take-append, drop-append, ltb, leb, ◌==◌, if◌then◌else◌, ltb→lt,
  lt→ltb, leb→le, ==_iff, tests, Bool-cases, Option-cases, map-eq-some,
}
use zephyr_xenlib.Errno.{Errno, Result, ok}
use zephyr_xenlib.Common.Ring.{ring_read}
use zephyr_xenlib.Store.Alloc.{Mem}
use zephyr_xenlib.Store.Path.{construct_path}
use zephyr_xenlib.Store.Tree.{Entry, is_abs_path}
use zephyr_xenlib.Server.State.{
  Server, InBuffer, invalidate_client, send_reply_sz, send_errno, handle_output,
}
use zephyr_xenlib.Server.Watch.{key_to_watcher}
use zephyr_xenlib.Server.Watch.Counted.{Holds}
use zephyr_xenlib.Server.Watch.Events.{
  queue_watch_notifications, dispatch_local_watch_events, process_pending_watch_events,
  cleanup_domain_watches,
}
use zephyr_xenlib.Server.Handlers.Watches.{watch_path, unwatch_found}

abbrev pub Both : (Server → Type 0) → Result (Unit {0}) × Server → Type 0
Both P r = P r.1

pub record Keeps (P : Server → Type 0) : Type 0 where
  pub memory : (s : Server) (m : Mem) → P s → P (record s { mem = m })
  pub locked : (s : Server) (ls : List (Result (Unit {0}))) → P s → P (record s { locks = ls })
  pub tree : (s : Server) (root : Entry) → P s → P (record s { root = root })
  pub input : (s : Server) (b : Option InBuffer) → P s → P (record s { inbuf = b })
  pub started :
      (s : Server) (t r : ℕ) → P s → P (record s { transaction = t; running_transaction = r })
  pub stopping :
      (s : Server) (id : ℕ) (b : Bool) (r : ℕ)
      → P s
      → P (record s {
        stop_transaction_id = id;
        pending_stop_transaction = b;
        running_transaction = r;
      })
  pub invalid : (e : Errno) (s : Server) → P s → P (invalidate_client e s)
  pub received :
      (s : Server) (want : ℕ) → P s → P (record s { domint = (ring_read s.domint want false).1 })
  pub replied :
      (id type : ℕ) (payload : List ℕ) (s : Server) → P s → P (send_reply_sz id type payload s)
  pub refused : (id : ℕ) (e : Errno) (s : Server) → P s → P (send_errno id e s)
  pub notified :
      (path : List ℕ) (recursive : Bool) (s : Server)
      → P s
      → Holds (Both P) (queue_watch_notifications path recursive s)
  pub dispatched : (s : Server) → P s → P (dispatch_local_watch_events s)
  pub watched :
      (id : ℕ) (text path token : List ℕ) (m m' : Mem) (s : Server)
      → construct_path text s.domid m ≡ (ok path, m')
      → P s
      → Holds P (watch_path id path token (not (is_abs_path text)) s)
  pub unwatched :
      (path token : List ℕ) (s : Server)
      → P s
      → P (unwatch_found (key_to_watcher path token (some s.domid) s.watches) s)
  pub fired : (s : Server) → P s → Holds P (process_pending_watch_events s)
  pub cleaned : (domain : Option ℕ) (s : Server) → P s → Holds P (cleanup_domain_watches domain s)
  pub written : (s : Server) → P s → P (handle_output s)
