-- ===== src/Server/Keeps/Replying.antt =====
-- XS_WATCH and the sending of events, for a property that does not depend on the watches and their
-- events and that replies keep.

use zephyr_xenlib.Clib.{bytes}
use zephyr_xenlib.Store.Path.{local_prefix}
use zephyr_xenlib.Common.Perm.{perm_read}
use zephyr_xenlib.Store.Tree.{key_to_entry_check_perm}
use zephyr_xenlib.Server.Watch.Counted.{Holds-map, Holds}
use zephyr_xenlib.Store.Alloc.{k_malloc_each, k_malloc, Mem}
use zephyr_xenlib.Server.Watch.{
  ref_put, same_domain, watch_at, change_at, key_to_watcher, watch_entry_put,
}
use zephyr_xenlib.Server.Handlers.Watches.{
  new_watch, xs_watch, set_relative, finish_watch, watch_path, find_or_add, first_event,
}
use zephyr_xenlib.Server.Watch.Events.{
  event_payload, xs_watch_event, process, fire_watcher, process_pending_watch_events,
}
use zephyr_xenlib.Errno.{ok, err, Result, Errno}
use zephyr_xenlib.Server.State.{
  xenstore_max_out_buf_num, PendingEvent, Watch, send_reply, send_errno, send_reply_sz, Server,
}
use zephyr_xenlib.Prelude.{
  ℕ, ◌+◌, ◌-◌, ◌≡◌, refl, inl, inr, Bool, ◌&&◌, Option, none, some, List, [], ◌∷◌, ◌++◌, length,
  ltb, Bool-cases, Option-cases,
}
use zephyr_xenlib.Server.Keeps.{Both}
use zephyr_xenlib.Server.Keeps.Quiet.{queue_pending-Quiet, Quiet}

module _ (P : Server → Type 0) (q : Quiet P)
    (replied : (id type : ℕ) (payload : List ℕ) (s : Server)
      → P s
      → P (send_reply_sz id type payload s))
    (refused : (id : ℕ) (e : Errno) (s : Server) → P s → P (send_errno id e s)) where
  find_or_add-Quiet :
      (path token : List ℕ) (relative : Bool) (s : Server)
      → P s
      → P (find_or_add path token relative s).1
  unfolding find_or_add
  find_or_add-Quiet path token relative s p =
      go (key_to_watcher path token (some s.domid) s.watches) refl
    where
      m3 : Mem
      m3 = (k_malloc_each 3 s.mem).1

      s3 : Server
      s3 = record s { mem = m3 }

      go :
          (o : Option ℕ)
          → key_to_watcher path token (some s.domid) s.watches ≡ o
          → P (find_or_add path token relative s).1
      go (some n) e =
          rw (e, find_or_add)
            (q.events s (change_at (set_relative relative) s.watches n) s.pending s.local_events p)
      go none e = elim (Bool-cases (k_malloc_each 3 s.mem).0) [
        | inr failed ↦ rw (e, failed, find_or_add) (q.memory s m3 p)
        | inl got ↦
            rw (e, got, find_or_add)
              (q.events s3 (s.watches ++ new_watch path token relative s.domid ∷ []) s.pending
                s.local_events (q.memory s m3 p))
      ]

  first_event-Quiet : (n : ℕ) (path : List ℕ) (s : Server) → P s → Holds P (first_event n path s)
  unfolding first_event
  first_event-Quiet n path s p =
      elim (Option-cases (key_to_entry_check_perm s.root path s.domid perm_read s.mem)) [
        | inl fault ↦ rw (fault, first_event) tt
        | inr ((none, mem'), hidden) ↦ rw (hidden, first_event) (q.memory s mem' p)
        | inr ((some e, mem'), seen) ↦
            rw (seen, first_event)
              (queue_pending-Quiet P q n path (record s { mem = mem' }) (q.memory s mem' p))
      ]

  pub watch_path-Quiet :
      (id : ℕ) (path token : List ℕ) (relative : Bool) (s : Server)
      → P s
      → Holds P (watch_path id path token relative s)
  unfolding send_reply
  watch_path-Quiet id path token relative s p =
      go (find_or_add path token relative s) (find_or_add-Quiet path token relative s p)
    where
      go : (r : Result ℕ × Server) → P r.1 → Holds P (finish_watch id path r)
      go (err e, s1) h = refused id e s1 h
      go (ok n, s1) h =
          first_event-Quiet n path (send_reply id xs_watch (bytes "OK") s1)
            (replied id xs_watch (bytes "OK" ++ 0 ∷ []) s1 h)

  fire_watcher-Quiet :
      (w : Watch) (path : List ℕ) (s : Server) → P s → Holds (Both P) (fire_watcher w path s)
  unfolding fire_watcher
  fire_watcher-Quiet w path s p = elim (Bool-cases w.linked) [
    | inr off ↦ rw (off, fire_watcher) p
    | inl on ↦ elim (Bool-cases (ltb (xenstore_max_out_buf_num - 1) s.used_out_bufs)) [
      | inl full ↦ rw (on, full, fire_watcher) p
      | inr room ↦
          elim (Bool-cases
            (w.is_relative && ltb (length path + 1) (length (local_prefix s.domid)))) [
              | inl short ↦ rw (on, room, short, fire_watcher) tt
              | inr fits ↦ elim (Bool-cases (k_malloc s.mem).0) [
                | inr failed ↦ rw (on, room, fits, failed, fire_watcher) (q.memory s m1 p)
                | inl got ↦
                    rw (on, room, fits, got, fire_watcher)
                      (replied 0 xs_watch_event (event_payload w s.domid path)
                        (record s { mem = m1 }) (q.memory s m1 p))
              ]
            ]
    ]
  ]
    where
      m1 : Mem
      m1 = (k_malloc s.mem).1

  process-Quiet :
      (es : List PendingEvent) (s : Server)
      → P s
      → Holds (λ (r : List PendingEvent × Server). P r.1) (process es s)
  unfolding process watch_entry_put
  process-Quiet [] s p = p
  process-Quiet (e ∷ es) s p = elim (Option-cases (watch_at s.watches e.watch)) [
    | inl freed ↦ rw (freed, process) tt
    | inr (w, at) ↦ elim (Bool-cases (same_domain (some s.domid) w.domain)) [
      | inr other ↦
          rw (at, other, process)
            (Holds-map _ (λ (r : List PendingEvent × Server). P r.1) _ (process es s) (λ r h. h)
              (process-Quiet es s p))
      | inl ours ↦ elim (Option-cases (fire_watcher w e.event_path s)) [
        | inl fault ↦ rw (at, ours, process, fault) tt
        | inr ((err x, s'), stop) ↦
            rw (at, ours, process, stop) (rw stop at (fire_watcher-Quiet w e.event_path s p))
        | inr ((ok u, s'), sent) ↦
            rw (at, ours, process, sent)
              (process-Quiet es (watch_entry_put e.watch s') (
                q.events s' (change_at ref_put s'.watches e.watch) s'.pending s'.local_events
                  (rw sent at (fire_watcher-Quiet w e.event_path s p))))
      ]
    ]
  ]

  pub fired-Quiet : (s : Server) → P s → Holds P (process_pending_watch_events s)
  unfolding process_pending_watch_events
  fired-Quiet s p = go (process s.pending s) (process-Quiet s.pending s p)
    where
      go :
          (o : Option (List PendingEvent × Server))
          → Holds (λ (r : List PendingEvent × Server). P r.1) o
          → Holds P (elim o [ none ↦ none | some (rest, s') ↦ some (record s' { pending = rest }) ])
      go none h = tt
      go (some (rest, s')) h = q.events s' s'.watches rest s'.local_events h
