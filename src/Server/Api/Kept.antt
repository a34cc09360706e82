-- ===== src/Server/Api/Kept.antt =====
-- A notification changes neither the tree nor anything else that does not depend on the watches.
use zephyr_xenlib.Server.Watch.Events.{queue_watch_notifications, dispatch_local_watch_events}
use zephyr_xenlib.Errno.{ok, err, Result}
use zephyr_xenlib.Server.Watch.{lock_deadline}
use zephyr_xenlib.Server.Handlers.Change.{lock, notify_watchers, lock_both}
use zephyr_xenlib.Server.Watch.Counted.{Holds}
use zephyr_xenlib.Store.Tree.{Entry}
use zephyr_xenlib.Server.State.{Server}
use zephyr_xenlib.Prelude.{ℕ, ◌≡◌, refl, false, Option, none, some, List}
use zephyr_xenlib.Server.Keeps.{Both}
use zephyr_xenlib.Server.Keeps.Quiet.{Quiet, notified-Quiet}
use zephyr_xenlib.Server.Keeps.Dropped.{dispatched-Quiet}

module _ (P : Server → Type 0) (q : Quiet P) where
  lock_both-Quiet : (s : Server) → P s → P (lock_both s).1
  unfolding lock_both
  lock_both-Quiet s p = go (lock_deadline s.locks).0
    where
      s1 : Server
      s1 = record s { locks = (lock_deadline s.locks).1 }

      p1 : P s1
      p1 = q.locked s (lock_deadline s.locks).1 p

      go : (r : Result (Unit {0})) → Both P (elim r [ err e ↦ (err e, s1) | ok _ ↦ lock s1 ])
      go (ok u) = q.locked s1 (lock_deadline s1.locks).1 p1
      go (err x) = p1

  pub notify_watchers-Quiet : (path : List ℕ) (s : Server) → P s → Holds P (notify_watchers path s)
  unfolding notify_watchers
  notify_watchers-Quiet path s p = go (lock_both s).0
    where
      s1 : Server
      s1 = (lock_both s).1

      p1 : P s1
      p1 = lock_both-Quiet s p

      queued :
          (o : Option (Result (Unit {0}) × Server))
          → Holds (Both P) o
          → Holds P (elim o [ none ↦ none | some (_, s2) ↦ some (dispatch_local_watch_events s2) ])
      queued none h = tt
      queued (some (r, s2)) h = dispatched-Quiet P q s2 h

      go :
          (r : Result (Unit {0}))
          → Holds P (elim r [
            | err e ↦ some s1
            | ok _ ↦ elim (queue_watch_notifications path false s1) [
              | none ↦ none
              | some (_, s2) ↦ some (dispatch_local_watch_events s2)
            ]
          ])
      go (err x) = p1
      go (ok u) =
          queued (queue_watch_notifications path false s1) (notified-Quiet P q path false s1 p1)

-- The tree is the one given.
abbrev HasRoot : Entry → Server → Type 0
HasRoot root s = s.root ≡ root

HasRoot-Quiet : (root : Entry) → Quiet (HasRoot root)
HasRoot-Quiet root = record {
  memory = λ s m h. h;
  locked = λ s ls h. h;
  events = λ s ws ps es h. h;
}

pub notify_watchers-root :
    (path : List ℕ) (s : Server) → Holds (HasRoot s.root) (notify_watchers path s)
notify_watchers-root path s =
    notify_watchers-Quiet (HasRoot s.root) (HasRoot-Quiet s.root) path s refl
