-- ===== src/Server/Keeps/Quiet.antt =====
-- A property that does not depend on the watches and their events: to queue events
-- keeps it.

use zephyr_xenlib.Errno.{err, ok, Result}
use zephyr_xenlib.Common.Perm.{perm_read}
use zephyr_xenlib.Store.Tree.{key_to_entry_check_perm}
use zephyr_xenlib.Server.Watch.Counted.{Holds}
use zephyr_xenlib.Server.Watch.{
  event, ref_get, ref_put, change_at, lock_deadline, watch_entry_put, watch_entry_get,
  queue_pending_watch_event, queue_local_watch_event, append_pending,
}
use zephyr_xenlib.Store.Alloc.{k_malloc, Mem}
use zephyr_xenlib.Server.Watch.Events.{
  reader, local_path, event_path_for, notify_from, queue_event, notify_one,
  queue_watch_notifications,
}
use zephyr_xenlib.Server.State.{PendingEvent, Watch, Server}
use zephyr_xenlib.Prelude.{
  ℕ, ◌+◌, ◌≡◌, refl, inl, inr, Bool, Option, none, some, List, [], ◌∷◌, ◌++◌, Bool-cases,
  Option-cases,
}
use zephyr_xenlib.Server.Keeps.{Both}

pub record Quiet (P : Server → Type 0) : Type 0 where
  pub memory : (s : Server) (m : Mem) → P s → P (record s { mem = m })
  pub locked : (s : Server) (ls : List (Result (Unit {0}))) → P s → P (record s { locks = ls })
  pub events :
      (s : Server) (ws : List Watch) (ps es : List PendingEvent)
      → P s
      → P (record s { watches = ws; pending = ps; local_events = es })

module _ (P : Server → Type 0) (q : Quiet P) where
  pub list-Quiet : (s : Server) (ws : List Watch) → P s → P (record s { watches = ws })
  list-Quiet s ws = q.events s ws s.pending s.local_events

  append_pending-Quiet : (n : ℕ) (path : List ℕ) (s : Server) → P s → P (append_pending n path s).1
  unfolding append_pending watch_entry_get watch_entry_put
  append_pending-Quiet n path s p = go (lock_deadline s.locks).0
    where
      s1 : Server
      s1 = watch_entry_get n (record s { locks = (lock_deadline s.locks).1 })

      p1 : P s1
      p1 =
          list-Quiet (record s { locks = (lock_deadline s.locks).1 })
            (change_at ref_get s.watches n) (q.locked s (lock_deadline s.locks).1 p)

      go :
          (r : Result (Unit {0}))
          → Both P (elim r [
            | err e ↦ (err e, watch_entry_put n s1)
            | ok _ ↦ (ok tt, record s1 { pending = s1.pending ++ event path n ∷ [] })
          ])
      go (ok u) = q.events s1 s1.watches (s1.pending ++ event path n ∷ []) s1.local_events p1
      go (err x) = list-Quiet s1 (change_at ref_put s1.watches n) p1

  pub queue_pending-Quiet :
      (n : ℕ) (path : List ℕ) (s : Server) → P s → P (queue_pending_watch_event n path s).1
  unfolding queue_pending_watch_event
  queue_pending-Quiet n path s p = elim (Bool-cases (k_malloc s.mem).0) [
    | inr failed ↦ rw (failed, queue_pending_watch_event) (q.memory s (k_malloc s.mem).1 p)
    | inl got ↦ elim (Bool-cases (k_malloc (k_malloc s.mem).1).0) [
      | inr failed ↦ rw (got, failed, queue_pending_watch_event) (q.memory s m2 p)
      | inl got2 ↦
          rw (got, got2, queue_pending_watch_event)
            (append_pending-Quiet n path (record s { mem = m2 }) (q.memory s m2 p))
    ]
  ]
    where
      m2 : Mem
      m2 = (k_malloc (k_malloc s.mem).1).1

  queue_local-Quiet :
      (n : ℕ) (path : List ℕ) (s : Server) → P s → P (queue_local_watch_event n path s)
  unfolding queue_local_watch_event watch_entry_get
  queue_local-Quiet n path s p = elim (Bool-cases (k_malloc s.mem).0) [
    | inr failed ↦ rw (failed, queue_local_watch_event) (q.memory s m1 p)
    | inl got ↦
        rw (got, queue_local_watch_event)
          (q.events (record s { mem = m1 }) (change_at ref_get s.watches n) s.pending
            (s.local_events ++ event path n ∷ []) (q.memory s m1 p))
  ]
    where
      m1 : Mem
      m1 = (k_malloc s.mem).1

  queue_event-Quiet :
      (w : Watch) (n : ℕ) (path : List ℕ) (s : Server)
      → P s
      → Holds (Both P) (queue_event w n path s)
  unfolding queue_event
  queue_event-Quiet w n path s p = go w.domain refl (local_path w path) refl
    where
      go :
          (d : Option ℕ)
          → w.domain ≡ d
          → (o : Option (List ℕ)) → local_path w path ≡ o
          → Holds (Both P) (queue_event w n path s)
      go none e none f = rw (e, f, queue_event) tt
      go none e (some x) f = rw (e, f, queue_event) (queue_local-Quiet n x s p)
      go (some d) e o f = rw (e, queue_event) (queue_pending-Quiet n path s p)

  notify_one-Quiet :
      (path : List ℕ) (recursive : Bool) (w : Watch) (n : ℕ) (s : Server)
      → P s
      → Holds (Both P) (notify_one path recursive w n s)
  unfolding notify_one
  notify_one-Quiet path recursive w n s p = elim (Bool-cases w.linked) [
    | inr off ↦ rw (off, notify_one) p
    | inl on ↦ elim (Option-cases (event_path_for path recursive w.path)) [
      | inl apart ↦ rw (on, apart, notify_one) p
      | inr (x, concerned) ↦
          elim (Option-cases (key_to_entry_check_perm s.root x (reader w) perm_read s.mem)) [
            | inl fault ↦ rw (on, concerned, fault, notify_one) tt
            | inr ((none, mem'), hidden) ↦
                rw (on, concerned, hidden, notify_one) (q.memory s mem' p)
            | inr ((some e, mem'), seen) ↦
                rw (on, concerned, seen, notify_one)
                  (queue_event-Quiet w n x (record s { mem = mem' }) (q.memory s mem' p))
          ]
    ]
  ]

  notify_from-Quiet :
      (path : List ℕ) (recursive : Bool) (ws : List Watch) (n : ℕ) (s : Server)
      → P s
      → Holds (Both P) (notify_from path recursive ws n s)
  unfolding notify_from
  notify_from-Quiet path recursive [] n s p = p
  notify_from-Quiet path recursive (w ∷ ws) n s p =
      elim (Option-cases (notify_one path recursive w n s)) [
        | inl fault ↦ rw (fault, notify_from) tt
        | inr ((ok u, s'), on) ↦
            rw (on, notify_from)
              (notify_from-Quiet path recursive ws (n + 1) s'
                (rw on at (notify_one-Quiet path recursive w n s p)))
        | inr ((err e, s'), stop) ↦
            rw (stop, notify_from) (rw stop at (notify_one-Quiet path recursive w n s p))
      ]

  pub notified-Quiet :
      (path : List ℕ) (recursive : Bool) (s : Server)
      → P s
      → Holds (Both P) (queue_watch_notifications path recursive s)
  unfolding queue_watch_notifications
  notified-Quiet path recursive s p = go (lock_deadline s.locks).0
    where
      s1 : Server
      s1 = record s { locks = (lock_deadline s.locks).1 }

      p1 : P s1
      p1 = q.locked s (lock_deadline s.locks).1 p

      go :
          (r : Result (Unit {0}))
          → Holds (Both P) (elim r [
            | err e ↦ some (err e, s1)
            | ok _ ↦ notify_from path recursive s1.watches 0 s1
          ])
      go (ok u) = notify_from-Quiet path recursive s1.watches 0 s1 p1
      go (err e) = p1
