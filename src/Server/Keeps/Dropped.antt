-- ===== src/Server/Keeps/Dropped.antt =====
-- A property that does not depend on the watches and their events: to dispatch and to drop events
-- keeps it.
use zephyr_xenlib.Server.Watch.Counted.{Holds-map, Holds}
use zephyr_xenlib.Server.Watch.{
  ref_put, watch_at, change_at, same_domain, watch_entry_put, remove_watch_entry,
}
use zephyr_xenlib.Server.Watch.Events.{
  remove_watches, drop_pending, dispatch, dispatch_local_watch_events, cleanup_domain_watches,
}
use zephyr_xenlib.Server.Handlers.Watches.{unwatch_found}
use zephyr_xenlib.Server.State.{PendingEvent, Watch, Server}
use zephyr_xenlib.Prelude.{
  ℕ, ◌+◌, inl, inr, Bool, true, false, ◌&&◌, Option, none, some, List, [], ◌∷◌, if◌then◌else◌,
  Bool-cases, Option-cases,
}
use zephyr_xenlib.Server.Keeps.Quiet.{Quiet, list-Quiet}

module _ (P : Server → Type 0) (q : Quiet P) where
  dispatch-Quiet : (es : List PendingEvent) (s : Server) → P s → P (dispatch es s)
  unfolding dispatch watch_entry_put
  dispatch-Quiet [] s p = p
  dispatch-Quiet (e ∷ es) s p =
      dispatch-Quiet es (watch_entry_put e.watch s)
        (list-Quiet P q s (change_at ref_put s.watches e.watch) p)

  pub dispatched-Quiet : (s : Server) → P s → P (dispatch_local_watch_events s)
  unfolding dispatch_local_watch_events
  dispatched-Quiet s p =
      dispatch-Quiet s.local_events (record s { local_events = [] })
        (q.events s s.watches s.pending [] p)

  removed-Quiet : (n : ℕ) (s : Server) → P s → P (remove_watch_entry n s)
  unfolding remove_watch_entry watch_entry_put
  removed-Quiet n s p = list-Quiet P q s _ p

  pub unwatch_found-Quiet : (o : Option ℕ) (s : Server) → P s → P (unwatch_found o s)
  unwatch_found-Quiet none s p = p
  unwatch_found-Quiet (some n) s p = removed-Quiet n s p

  remove_watches-Quiet :
      (domain : Option ℕ) (ws : List Watch) (n : ℕ) (s : Server)
      → P s
      → P (remove_watches domain ws n s)
  unfolding remove_watches
  remove_watches-Quiet domain [] n s p = p
  remove_watches-Quiet domain (w ∷ ws) n s p =
      remove_watches-Quiet domain ws (n + 1) (if its then remove_watch_entry n s else s) (go its)
    where
      its : Bool
      its = w.linked && same_domain w.domain domain

      go : (b : Bool) → P (if b then remove_watch_entry n s else s)
      go true = removed-Quiet n s p
      go false = p

  drop_pending-Quiet :
      (domain : Option ℕ) (es : List PendingEvent) (s : Server)
      → P s
      → Holds (λ (r : List PendingEvent × Server). P r.1) (drop_pending domain es s)
  unfolding drop_pending watch_entry_put
  drop_pending-Quiet domain [] s p = p
  drop_pending-Quiet domain (e ∷ es) s p = elim (Option-cases (watch_at s.watches e.watch)) [
    | inl freed ↦ rw (freed, drop_pending) tt
    | inr (w, at) ↦ elim (Bool-cases (same_domain w.domain domain)) [
      | inr other ↦
          rw (at, other, drop_pending)
            (Holds-map _ (λ (r : List PendingEvent × Server). P r.1) _ (drop_pending domain es s)
              (λ r h. h) (drop_pending-Quiet domain es s p))
      | inl its ↦
          rw (at, its, drop_pending)
            (drop_pending-Quiet domain es (watch_entry_put e.watch s)
              (list-Quiet P q s (change_at ref_put s.watches e.watch) p))
    ]
  ]

  pub cleaned-Quiet :
      (domain : Option ℕ) (s : Server) → P s → Holds P (cleanup_domain_watches domain s)
  unfolding cleanup_domain_watches
  cleaned-Quiet domain s p =
      go (drop_pending domain s1.pending s1)
        (drop_pending-Quiet domain s1.pending s1 (remove_watches-Quiet domain s.watches 0 s p))
    where
      s1 : Server
      s1 = remove_watches domain s.watches 0 s

      go :
          (o : Option (List PendingEvent × Server))
          → Holds (λ (r : List PendingEvent × Server). P r.1) o
          → Holds P (elim o [ none ↦ none | some (rest, s2) ↦ some (record s2 { pending = rest }) ])
      go none h = tt
      go (some (rest, s2)) h = q.events s2 s2.watches rest s2.local_events h
