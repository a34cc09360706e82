-- ===== src/Server/Watch/Cleanup.antt =====
-- cleanup_domain_watches keeps the reference counts right.

use mathlib.Core.Path.{subst}
use zephyr_xenlib.Prelude.{
  ℕ, ◌+◌, ◌≡◌, refl, ap, ◌∙◌, inl, inr, Option, none, some, List, [], ◌∷◌, arith, Bool-cases,
}
use zephyr_xenlib.Server.State.{Server, Watch, PendingEvent}
use zephyr_xenlib.Server.Watch.{remove_watch_entry, watch_entry_put, same_domain}
use zephyr_xenlib.Server.Watch.Events.{remove_watches, drop_pending, cleanup_domain_watches}
use zephyr_xenlib.Server.Watch.Counted.{Holds}
use zephyr_xenlib.Server.Watch.Sent.{Left, drop_pending-Balanced}
use zephyr_xenlib.Server.Watch.Refs.{
  link_at, count, Balanced, Balanced-remove, IsCounted, Ahead, Ahead-next, Ahead-unlink, Ahead-here,
}

-- The counts are right, and no event has come or gone.
abbrev Removed : (ℕ → ℕ) → Server → Server → Type 0
Removed base s s' =
    Balanced base s'.watches × (s'.pending ≡ s.pending) × (s'.local_events ≡ s.local_events)

remove_watches-Balanced :
    (domain : Option ℕ) (ws : List Watch) (n : ℕ) (base : ℕ → ℕ) (s : Server)
    → Ahead ws n s.watches
    → Balanced base s.watches
    → Removed base s (remove_watches domain ws n s)
unfolding remove_watches remove_watch_entry watch_entry_put
remove_watches-Balanced domain [] n base s a b = (b, refl, refl)
remove_watches-Balanced domain (w ∷ ws) n base s a b = elim (Bool-cases w.linked) [
  | inr off ↦
      rw (off, remove_watches)
        (remove_watches-Balanced domain ws (n + 1) base s (Ahead-next w ws n s.watches a) b)
  | inl on ↦ elim (Bool-cases (same_domain w.domain domain)) [
    | inr other ↦
        rw (on, other, remove_watches)
          (remove_watches-Balanced domain ws (n + 1) base s (Ahead-next w ws n s.watches a) b)
    | inl its ↦
        let here : link_at s.watches n ≡ 1 = Ahead-here w ws n s.watches a on in
        rw (on, its, remove_watches)
          (remove_watches-Balanced domain ws (n + 1) base (remove_watch_entry n s)
            (Ahead-unlink ws n s.watches here (Ahead-next w ws n s.watches a))
            (Balanced-remove base s.watches n here b))
  ]
]

-- When a domain resets its watches or goes away, cleanup_domain_watches keeps the counts right.
pub cleanup-IsCounted :
    (domain : Option ℕ) (s s' : Server)
    → IsCounted s
    → cleanup_domain_watches domain s ≡ some s'
    → IsCounted s'
unfolding cleanup_domain_watches
cleanup-IsCounted domain s s' c h = go (drop_pending domain s1.pending s1) refl (
    drop_pending-Balanced domain s1.pending (count s.local_events) s1
      (rw events.1 (λ n. omega (arith, events.0 n))))
  where
    s1 : Server
    s1 = remove_watches domain s.watches 0 s

    events : Removed (λ n. count s.pending n + count s.local_events n) s s1
    events =
        remove_watches-Balanced domain s.watches 0 (λ n. count s.pending n + count s.local_events n)
          s (λ k. ap (link_at s.watches) (omega arith)) c

    go :
        (o : Option (List PendingEvent × Server))
        → drop_pending domain s1.pending s1 ≡ o
        → Holds (Left (count s.local_events) s1) o
        → IsCounted s'
    go none e p = cc (rw (e, cleanup_domain_watches) at h)
    go (some (left, s2)) e (p, local) =
        let same : record s2 { pending = left } ≡ s' = cc (rw (e, cleanup_domain_watches) at h) in
        subst IsCounted same (rw (local ∙ events.2) (λ n. omega (arith, p n)))
