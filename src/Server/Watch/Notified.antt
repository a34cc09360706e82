-- ===== src/Server/Watch/Notified.antt =====
-- queue_watch_notifications keeps the reference counts right.

use zephyr_xenlib.Prelude.{
  ℕ, ◌+◌, ◌<◌, ◌≡◌, refl, sym, ap, ◌∙◌, inl, inr, Bool, true, Option, none, some, List, [], ◌∷◌,
  arith, Bool-cases, Option-cases,
}
use zephyr_xenlib.Errno.{Result, ok, err}
use zephyr_xenlib.Store.Tree.{key_to_entry_check_perm}
use zephyr_xenlib.Common.Perm.{perm_read}
use zephyr_xenlib.Server.State.{Server, Watch}
use zephyr_xenlib.Server.Watch.{lock_deadline}
use zephyr_xenlib.Server.Watch.Events.{
  local_path, queue_event, notify_one, notify_from, queue_watch_notifications, event_path_for,
  reader,
}
use zephyr_xenlib.Server.Watch.Counted.{
  Holds, Holds-weaken, SameList, queue_pending-IsCounted, queue_local-IsCounted,
}
use zephyr_xenlib.Server.Watch.Refs.{
  ref_at, link_at, waiting, IsCounted, linked-held, Ahead, Ahead-next, Ahead-here,
}

-- The counts are right, and the list is as it was.
abbrev Kept : Server → Result (Unit {0}) × Server → Type 0
Kept s r = IsCounted r.1 × SameList s r.1

queue_event-Kept :
    (w : Watch) (n : ℕ) (path : List ℕ) (s : Server)
    → 0 < ref_at s.watches n
    → IsCounted s
    → Holds (Kept s) (queue_event w n path s)
unfolding queue_event
queue_event-Kept w n path s h c = go w.domain refl (local_path w path) refl
  where
    go :
        (d : Option ℕ)
        → w.domain ≡ d
        → (p : Option (List ℕ)) → local_path w path ≡ p
        → Holds (Kept s) (queue_event w n path s)
    go none e none f = rw (e, f, queue_event) tt
    go none e (some p) f = rw (e, f, queue_event) (queue_local-IsCounted n p s h c)
    go (some d) e p f = rw (e, queue_event) (queue_pending-IsCounted n path s h c)

notify_one-Kept :
    (path : List ℕ) (recursive : Bool) (w : Watch) (n : ℕ) (s : Server)
    → (w.linked ≡ true → 0 < ref_at s.watches n)
    → IsCounted s
    → Holds (Kept s) (notify_one path recursive w n s)
unfolding notify_one
notify_one-Kept path recursive w n s held c = elim (Bool-cases w.linked) [
  | inr off ↦ rw (off, notify_one) (c, λ k. refl)
  | inl on ↦ elim (Option-cases (event_path_for path recursive w.path)) [
    | inl apart ↦ rw (on, apart, notify_one) (c, λ k. refl)
    | inr (p, concerned) ↦
        elim (Option-cases (key_to_entry_check_perm s.root p (reader w) perm_read s.mem)) [
          | inl fault ↦ rw (on, concerned, fault, notify_one) tt
          | inr ((none, mem'), hidden) ↦ rw (on, concerned, hidden, notify_one) (c, λ k. refl)
          | inr ((some e, mem'), seen) ↦
              rw (on, concerned, seen, notify_one)
                (queue_event-Kept w n p (record s { mem = mem' }) (held on) c)
        ]
  ]
]

Kept-after : (s s' : Server) (r : Result (Unit {0}) × Server) → SameList s s' → Kept s' r → Kept s r
Kept-after s s' r same k = (k.0, λ n. k.1 n ∙ same n)

notify_from-Kept :
    (path : List ℕ) (recursive : Bool) (ws : List Watch) (n : ℕ) (s : Server)
    → Ahead ws n s.watches
    → IsCounted s
    → Holds (Kept s) (notify_from path recursive ws n s)
unfolding notify_from
notify_from-Kept path recursive [] n s a c = (c, λ k. refl)
notify_from-Kept path recursive (w ∷ ws) n s a c =
    let first : Holds (Kept s) (notify_one path recursive w n s) =
      notify_one-Kept path recursive w n s
        (λ on. linked-held (waiting s) s.watches n c (Ahead-here w ws n s.watches a on)) c in
    elim (Option-cases (notify_one path recursive w n s)) [
      | inl fault ↦ rw (fault, notify_from) tt
      | inr ((err x, s'), stop) ↦ rw (stop, notify_from) (rw stop at first)
      | inr ((ok u, s'), went) ↦
          let (c', same) : Kept s (ok u, s') = rw went at first in
          rw (went, notify_from)
            (Holds-weaken (Kept s') (Kept s) (notify_from path recursive ws (n + 1) s')
              (λ r k. Kept-after s s' r same k)
              (notify_from-Kept path recursive ws (n + 1) s'
                (λ k. Ahead-next w ws n s.watches a k ∙ sym (same (n + 1 + k))) c'))
    ]

-- Queueing the events of a changed path keeps the counts right, and watch_entry_list as it is, also
-- where memory or a lock is refused.
pub queue_watch_notifications-IsCounted :
    (path : List ℕ) (recursive : Bool) (s s' : Server) (r : Result (Unit {0}))
    → IsCounted s
    → queue_watch_notifications path recursive s ≡ some (r, s')
    → IsCounted s' × SameList s s'
unfolding queue_watch_notifications
queue_watch_notifications-IsCounted path recursive s s' r c h = go (lock_deadline s.locks).0 refl
  where
    s1 : Server
    s1 = record s { locks = (lock_deadline s.locks).1 }

    reached :
        (o : Option (Result (Unit {0}) × Server))
        → Holds (Kept s) o
        → o ≡ some (r, s')
        → Kept s (r, s')
    reached o k e = rw e at k

    go : (x : Result (Unit {0})) → (lock_deadline s.locks).0 ≡ x → Kept s (r, s')
    go (ok u) e =
        reached (notify_from path recursive s.watches 0 s1)
          (notify_from-Kept path recursive s.watches 0 s1
            (λ k. ap (link_at s.watches) (omega arith)) c)
          (rw (e, queue_watch_notifications) at h)
    go (err x) e =
        reached (some (err x, s1)) (c, λ k. refl) (rw (e, queue_watch_notifications) at h)
