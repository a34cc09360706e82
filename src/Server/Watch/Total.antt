-- ===== src/Server/Watch/Total.antt =====
-- process_pending_watch_events reads no watch that is freed, and runs to its end.
use mathlib.Core.Option
use zephyr_xenlib.Prelude.{
  ℕ, zero, suc, ◌+◌, ◌≤◌, ◌<◌, ◌≡◌, refl, sym, ap, ◌∙◌, ◌≢◌, inl, inr, Bool, true, false, none,
  some, List, [], ◌∷◌, arith, length, Bool-cases, Option-cases,
}
use zephyr_xenlib.Errno.{ok, err}
use zephyr_xenlib.Store.Path.{local_prefix}
use zephyr_xenlib.Server.State.{Server, Watch, PendingEvent}
use zephyr_xenlib.Server.Watch.{watch_at, change_at, ref_put, watch_entry_put, same_domain}
use zephyr_xenlib.Server.Watch.Events.{fire_watcher, process, process_pending_watch_events}
use zephyr_xenlib.Server.Watch.Sent.{
  process_pending-IsCounted, SameWatches, fire_watcher-watches, process-kept, process-fired,
}
use zephyr_xenlib.Server.Watch.Refs.{
  ref_at, one, one_self, count, Balanced, Balanced-put, IsCounted,
}

abbrev pub relative_at : List Watch → ℕ → Bool
relative_at [] n = false
relative_at (w ∷ ws) zero = w.is_relative
relative_at (w ∷ ws) (suc n) = relative_at ws n

relative-put :
    (ws : List Watch) (n m : ℕ) → relative_at (change_at ref_put ws n) m ≡ relative_at ws m
unfolding change_at
relative-put [] n m = refl
relative-put (w ∷ ws) zero zero = refl
relative-put (w ∷ ws) zero (suc m) = refl
relative-put (w ∷ ws) (suc n) zero = refl
relative-put (w ∷ ws) (suc n) (suc m) = relative-put ws n m

-- A watch with a reference is not freed.
held_at :
    (ws : List Watch) (n : ℕ)
    → 0 < ref_at ws n
    → (w : Watch) × (watch_at ws n ≡ some w) × (relative_at ws n ≡ w.is_relative)
unfolding watch_at
held_at [] n h = absurd (omega arith)
held_at (w ∷ ws) zero h = (w, ground (arith, h), refl)
held_at (w ∷ ws) (suc n) h = held_at ws n h

-- The path of an event for a relative watch is no shorter than the domain's prefix.
abbrev pub Prefixed : ℕ → List Watch → List PendingEvent → Type 0
Prefixed domid ws [] = Unit
Prefixed domid ws (e ∷ es) =
    (relative_at ws e.watch ≡ true → length (local_prefix domid) ≤ length e.event_path + 1)
    × Prefixed domid ws es

Prefixed-put :
    (domid : ℕ) (ws : List Watch) (n : ℕ) (es : List PendingEvent)
    → Prefixed domid ws es
    → Prefixed domid (change_at ref_put ws n) es
Prefixed-put domid ws n [] p = tt
Prefixed-put domid ws n (e ∷ es) p =
    (λ r. p.0 (sym (relative-put ws n e.watch) ∙ r), Prefixed-put domid ws n es p.1)

fire_watcher-total :
    (w : Watch) (path : List ℕ) (s : Server)
    → (w.is_relative ≡ true → length (local_prefix s.domid) ≤ length path + 1)
    → fire_watcher w path s ≢ none
unfolding fire_watcher
fire_watcher-total w path s fits e = ground (arith, fits, e)

abbrev Runs : List PendingEvent → Server → Type 0
Runs es s = (r : List PendingEvent × Server) × (process es s ≡ some r)

process-total :
    (es : List PendingEvent) (base : ℕ → ℕ) (s : Server)
    → Balanced (λ n. base n + count es n) s.watches
    → Prefixed s.domid s.watches es
    → Runs es s
unfolding process watch_entry_put
process-total [] base s b p = (([], s), refl)
process-total (e ∷ es) base s b p =
    let (w, at, rel) = held_at s.watches e.watch (omega (arith, b e.watch, one_self e.watch)) in
    elim (Bool-cases (same_domain (some s.domid) w.domain)) [
      | inr other ↦
          let (r, ran) =
            process-total es (λ n. base n + one e.watch n) s (λ n. omega (arith, b n)) p.1 in
          ((e ∷ r.0, r.1), process-kept e es s w at other ∙ ap (Option.map _) ran)
      | inl ours ↦ elim (Option-cases (fire_watcher w e.event_path s)) [
        | inl fault ↦ absurd (fire_watcher-total w e.event_path s (λ r. p.0 (rel ∙ r)) fault)
        | inr ((err x, s'), stop) ↦ ((e ∷ es, s'), process-fired e es s w at ours ∙ rw stop refl)
        | inr ((ok u, s'), sent) ↦
            let (same, dom, _) : SameWatches s s' =
              rw sent at (fire_watcher-watches w e.event_path s) in
            let (r, ran) =
              process-total es base (watch_entry_put e.watch s')
                (Balanced-put (λ n. base n + count es n) s'.watches e.watch
                  (rw same (λ n. omega (arith, b n))))
                (Prefixed-put s'.domid s'.watches e.watch es (rw (same, dom) p.1)) in
            (r, process-fired e es s w at ours ∙ rw sent ran)
      ]
    ]

pending_done :
    (s : Server) (r : List PendingEvent × Server)
    → process s.pending s ≡ some r
    → process_pending_watch_events s ≡ some (record r.1 { pending = r.0 })
unfolding process_pending_watch_events
pending_done s r ran = rw (ran, process_pending_watch_events) refl

-- Where the counts are right, and the events for relative watches name paths at least as long as the
-- domain's prefix less its last byte, process_pending_watch_events runs to its end: it reads no watch
-- that is freed, whatever the memory and the waiting buffers, and the counts are right after it.
pub process_pending-total :
    (s : Server)
    → IsCounted s
    → Prefixed s.domid s.watches s.pending
    → (s' : Server) × (process_pending_watch_events s ≡ some s') × IsCounted s'
process_pending-total s c p =
    let (r, ran) = process-total s.pending (count s.local_events) s (λ n. omega (arith, c n)) p in
    let done = pending_done s r ran in
    (record r.1 { pending = r.0 }, done, process_pending-IsCounted s _ c done)
