-- ===== src/Server/Keeps/Changes.antt =====
-- The handlers that change the tree or the watches keep what the small operations keep.

use zephyr_xenlib.Common.Perm.{perm_write}
use zephyr_xenlib.Clib.{cut, bytes}
use zephyr_xenlib.Store.Remove.{free_node}
use zephyr_xenlib.Server.Watch.Events.{queue_watch_notifications, dispatch_local_watch_events}
use zephyr_xenlib.Server.Handlers.{xs_rm, xs_write, xs_mkdir}
use zephyr_xenlib.Errno.{err, Result, ok}
use zephyr_xenlib.Store.Tree.{key_to_entry_check_perm, Entry}
use zephyr_xenlib.Store.Alloc.{k_malloc}
use zephyr_xenlib.Server.Keeps.Replies.{with_path-Keeps}
use zephyr_xenlib.Server.Watch.Counted.{Holds}
use zephyr_xenlib.Store.Write.{do_write, Walk}
use zephyr_xenlib.Server.State.{send_errno, Server, send_reply_read, send_reply}
use zephyr_xenlib.Server.Watch.{lock_deadline}
use zephyr_xenlib.Server.Handlers.Change.{
  lock, construct_data, xss_do_rm, remove_found, handle_write, lock_both, finish_write, handle_rm,
  write_path, xss_do_write, handle_mkdir, notify_watchers,
}
use mathlib.Core.Option
use zephyr_xenlib.Prelude.{
  ℕ, ◌≡◌, refl, inl, inr, true, false, Option, none, some, List, [], ◌∷◌, ◌++◌, Bool-cases,
  Option-cases,
}
use zephyr_xenlib.Server.Keeps.{Keeps, Both}

module _ (P : Server → Type 0) (k : Keeps P) where
  lock_both-Keeps : (s : Server) → P s → P (lock_both s).1
  unfolding lock_both
  lock_both-Keeps s p = go (lock_deadline s.locks).0 refl
    where
      s1 : Server
      s1 = record s { locks = (lock_deadline s.locks).1 }

      p1 : P s1
      p1 = k.locked s (lock_deadline s.locks).1 p

      go : (r : Result (Unit {0})) → (lock_deadline s.locks).0 ≡ r → P (lock_both s).1
      go (ok u) e = rw (e, lock_both) (k.locked s1 (lock_deadline s1.locks).1 p1)
      go (err x) e = rw (e, lock_both) p1

  remove_found-Keeps : (path : List ℕ) (s : Server) → P s → Holds (Both P) (remove_found path s)
  unfolding remove_found
  remove_found-Keeps path s p =
      go (queue_watch_notifications path true s) (k.notified path true s p)
    where
      freed :
          (s' : Server) (o : Option Entry)
          → P s'
          → Holds (Both P) (
              Option.map
                (λ (root' : Entry).
                  (ok tt, dispatch_local_watch_events (record s' { root = root' })))
                o)
      freed s' none p' = tt
      freed s' (some root') p' = k.dispatched (record s' { root = root' }) (k.tree s' root' p')

      go :
          (o : Option (Result (Unit {0}) × Server))
          → Holds (Both P) o
          → Holds (Both P) (elim o [
            | none ↦ none
            | some (err e, s') ↦ some (err e, dispatch_local_watch_events s')
            | some (ok _, s') ↦
                Option.map
                  (λ (root' : Entry).
                    (ok tt, dispatch_local_watch_events (record s' { root = root' })))
                  (free_node path s'.root)
          ])
      go none h = tt
      go (some (err e, s')) h = k.dispatched s' h
      go (some (ok u, s')) h = freed s' (free_node path s'.root) h

  xss_do_rm-Keeps :
      (path : List ℕ) (caller_id : ℕ) (s : Server)
      → P s
      → Holds (Both P) (xss_do_rm path caller_id s)
  unfolding xss_do_rm
  xss_do_rm-Keeps path caller_id s p = go (lock_both s).0 refl
    where
      s1 : Server
      s1 = (lock_both s).1

      p1 : P s1
      p1 = lock_both-Keeps s p

      go :
          (r : Result (Unit {0}))
          → (lock_both s).0 ≡ r
          → Holds (Both P) (xss_do_rm path caller_id s)
      go (err x) e = rw (e, xss_do_rm) p1
      go (ok u) e =
          elim (Option-cases (key_to_entry_check_perm s1.root path caller_id perm_write s1.mem)) [
            | inl fault ↦ rw (e, xss_do_rm, fault) tt
            | inr ((none, mem'), missing) ↦ rw (e, xss_do_rm, missing) (k.memory s1 mem' p1)
            | inr ((some n, mem'), found) ↦
                rw (e, xss_do_rm, found)
                  (remove_found-Keeps path (record s1 { mem = mem' }) (k.memory s1 mem' p1))
          ]

  notify_watchers-Keeps : (path : List ℕ) (s : Server) → P s → Holds P (notify_watchers path s)
  unfolding notify_watchers
  notify_watchers-Keeps path s p = go (lock_both s).0 refl
    where
      s1 : Server
      s1 = (lock_both s).1

      p1 : P s1
      p1 = lock_both-Keeps s p

      queued :
          (o : Option (Result (Unit {0}) × Server))
          → Holds (Both P) o
          → Holds P (elim o [ none ↦ none | some (_, s2) ↦ some (dispatch_local_watch_events s2) ])
      queued none h = tt
      queued (some (r, s2)) h = k.dispatched s2 h

      go : (r : Result (Unit {0})) → (lock_both s).0 ≡ r → Holds P (notify_watchers path s)
      go (err x) e = rw (e, notify_watchers) p1
      go (ok u) e =
          rw (e, notify_watchers)
            (queued (queue_watch_notifications path false s1) (k.notified path false s1 p1))

  pub rm-Keeps : (id : ℕ) (payload : List ℕ) (s : Server) → P s → Holds P (handle_rm id payload s)
  unfolding handle_rm send_reply_read
  rm-Keeps id payload s p = elim (Option-cases (cut payload)) [
    | inl behind ↦ rw (behind, handle_rm) tt
    | inr ((path, rest), here) ↦
        rw (here, handle_rm) (go (xss_do_rm path s.domid s) (xss_do_rm-Keeps path s.domid s p))
  ]
    where
      go :
          (o : Option (Result (Unit {0}) × Server))
          → Holds (Both P) o
          → Holds P (elim o [
            | none ↦ none
            | some (err e, s') ↦ some (send_errno id e s')
            | some (ok _, s') ↦ some (send_reply_read id xs_rm [] s')
          ])
      go none h = tt
      go (some (err e, s')) h = k.refused id e s' h
      go (some (ok u, s')) h = k.replied id xs_rm [] s' h

  do_write-Keeps :
      (data_bytes : Option (List ℕ)) (path : List ℕ) (s : Server)
      → P s
      → Holds (Both P) (xss_do_write data_bytes path s)
  unfolding xss_do_write
  do_write-Keeps data_bytes path s p = elim (Bool-cases (k_malloc s.mem).0) [
    | inl got ↦
        rw (got, xss_do_write)
          (go (lock s).1 (do_write data_bytes s.domid [] path (lock s).0 s.root s.mem)
            (k.locked s (lock_deadline s.locks).1 p))
    | inr failed ↦
        rw (failed, xss_do_write)
          (go s (do_write data_bytes s.domid [] path (ok tt) s.root s.mem) p)
  ]
    where
      go :
          (s' : Server) (o : Option Walk)
          → P s'
          → Holds (Both P) (Option.map (λ (w : Walk). (w.0, record s' { root = w.1; mem = w.2 })) o)
      go s' none h = tt
      go s' (some w) h = k.memory (record s' { root = w.1 }) w.2 (k.tree s' w.1 h)

  finish_write-Keeps :
      (id msg_type : ℕ) (path : List ℕ) (o : Option (Result (Unit {0}) × Server))
      → Holds (Both P) o
      → Holds P (elim o [ none ↦ none | some r ↦ finish_write id msg_type path r ])
  unfolding finish_write send_reply
  finish_write-Keeps id msg_type path none h = tt
  finish_write-Keeps id msg_type path (some (err e, s)) h = k.refused id e s h
  finish_write-Keeps id msg_type path (some (ok u, s)) h =
      notify_watchers-Keeps path (send_reply id msg_type (bytes "OK") s)
        (k.replied id msg_type (bytes "OK" ++ 0 ∷ []) s h)

  write_path-Keeps :
      (id msg_type : ℕ) (path rest : List ℕ) (s : Server)
      → P s
      → Holds P (write_path id msg_type path rest s)
  unfolding write_path
  write_path-Keeps id msg_type path rest s p = go (construct_data rest s.mem).0 refl
    where
      s' : Server
      s' = record s { mem = (construct_data rest s.mem).1 }

      p' : P s'
      p' = k.memory s (construct_data rest s.mem).1 p

      go :
          (r : Result (Option (List ℕ)))
          → (construct_data rest s.mem).0 ≡ r
          → Holds P (write_path id msg_type path rest s)
      go (err e) eq = rw (eq, write_path) (k.refused id e s' p')
      go (ok d) eq =
          rw (eq, write_path)
            (finish_write-Keeps id msg_type path (xss_do_write d path s')
              (do_write-Keeps d path s' p'))

  pub write-Keeps :
      (id : ℕ) (payload : List ℕ) (s : Server) → P s → Holds P (handle_write id payload s)
  unfolding handle_write
  write-Keeps id payload s p =
      with_path-Keeps P k id payload (write_path id xs_write) s (write_path-Keeps id xs_write) p

  pub mkdir-Keeps :
      (id : ℕ) (payload : List ℕ) (s : Server) → P s → Holds P (handle_mkdir id payload s)
  unfolding handle_mkdir
  mkdir-Keeps id payload s p =
      with_path-Keeps P k id payload (write_path id xs_mkdir) s (write_path-Keeps id xs_mkdir) p
