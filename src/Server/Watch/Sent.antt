-- ===== src/Server/Watch/Sent.antt =====
-- Sending the events that wait for a domain, and dropping them, keeps the reference counts right.
use mathlib.Core.Option
use mathlib.Core.Path.{subst}
use zephyr_xenlib.Prelude.{
  ℕ, ◌+◌, ◌-◌, ◌≡◌, refl, sym, ◌∙◌, inl, inr, true, false, not, ◌&&◌, Option, none, some, List, [],
  ◌∷◌, arith, length, ltb, Bool-cases, Option-cases,
}
use zephyr_xenlib.Errno.{Result, ok, err}
use zephyr_xenlib.Store.Alloc.{k_malloc}
use zephyr_xenlib.Server.State.{
  xenstore_max_out_buf_num, Server, Watch, PendingEvent, send_reply_sz, send_short, send_errno,
  invalidate_client,
}
use zephyr_xenlib.Store.Path.{local_prefix}
use zephyr_xenlib.Server.Watch.{watch_at, watch_entry_put, same_domain}
use zephyr_xenlib.Server.Watch.Events.{
  drop_pending, event_payload, xs_watch_event, fire_watcher, process, process_pending_watch_events,
}
use zephyr_xenlib.Server.Watch.Counted.{Holds, Holds-weaken, Holds-map}
use zephyr_xenlib.Server.Watch.Refs.{one, count, Balanced, Balanced-put, IsCounted}

send_reply_sz-watches :
    (req_id type : ℕ) (payload : List ℕ) (s : Server)
    → let s' = send_reply_sz req_id type payload s in
      (s'.watches ≡ s.watches) × (s'.domid ≡ s.domid) × (s'.local_events ≡ s.local_events)
unfolding send_reply_sz send_short send_errno invalidate_client
send_reply_sz-watches req_id type payload s = ground arith

-- What stays of the state when a reply is sent.
abbrev pub SameWatches : Server → Server → Type 0
SameWatches s s' =
    (s'.watches ≡ s.watches) × (s'.domid ≡ s.domid) × (s'.local_events ≡ s.local_events)

pub fire_watcher-watches :
    (w : Watch) (path : List ℕ) (s : Server)
    → Holds (λ (r : Result (Unit {0}) × Server). SameWatches s r.1) (fire_watcher w path s)
unfolding fire_watcher
fire_watcher-watches w path s = elim (Bool-cases (not w.linked)) [
  | inl gone ↦ rw (gone, fire_watcher) (refl, refl, refl)
  | inr here ↦ elim (Bool-cases (ltb (xenstore_max_out_buf_num - 1) s.used_out_bufs)) [
    | inl full ↦ rw (here, full, fire_watcher) (refl, refl, refl)
    | inr room ↦
        elim (Bool-cases (w.is_relative && ltb (length path + 1) (length (local_prefix s.domid)))) [
          | inl short ↦ rw (here, room, short, fire_watcher) tt
          | inr long ↦ elim (Bool-cases (k_malloc s.mem).0) [
            | inr failed ↦ rw (here, room, long, failed, fire_watcher) (refl, refl, refl)
            | inl got ↦
                rw (here, room, long, got, fire_watcher)
                  (send_reply_sz-watches 0 xs_watch_event (event_payload w s.domid path)
                    (record s { mem = (k_malloc s.mem).1 }))
          ]
        ]
  ]
]

abbrev pub Left : (ℕ → ℕ) → Server → List PendingEvent × Server → Type 0
Left base s r =
    Balanced (λ n. base n + count r.0 n) r.1.watches × (r.1.local_events ≡ s.local_events)

pub process-kept :
    (e : PendingEvent) (es : List PendingEvent) (s : Server) (w : Watch)
    → watch_at s.watches e.watch ≡ some w
    → same_domain (some s.domid) w.domain ≡ false
    → process (e ∷ es) s
      ≡ Option.map (λ (r : List PendingEvent × Server). (e ∷ r.0, r.1)) (process es s)
unfolding process
process-kept e es s w at other = rw (at, other, process) refl

-- The event of this domain: the loop stops at it, or goes on without it.
pub process-fired :
    (e : PendingEvent) (es : List PendingEvent) (s : Server) (w : Watch)
    → watch_at s.watches e.watch ≡ some w
    → same_domain (some s.domid) w.domain ≡ true
    → process (e ∷ es) s ≡ elim (fire_watcher w e.event_path s) [
      | none ↦ none
      | some (err x, s') ↦ some (e ∷ es, s')
      | some (ok _, s') ↦ process es (watch_entry_put e.watch s')
    ]
unfolding process
process-fired e es s w at ours = rw (at, ours, process) refl

fired :
    (e : PendingEvent) (es : List PendingEvent) (base : ℕ → ℕ) (s : Server)
    → ((s' : Server)
        → Balanced (λ n. base n + count es n) s'.watches
        → Holds (Left base s') (process es s'))
    → Balanced (λ n. base n + count (e ∷ es) n) s.watches
    → (o : Option (Result (Unit {0}) × Server))
    → Holds (λ (r : Result (Unit {0}) × Server). SameWatches s r.1) o
    → Holds (Left base s) (elim o [
      | none ↦ none
      | some (err x, s') ↦ some (e ∷ es, s')
      | some (ok _, s') ↦ process es (watch_entry_put e.watch s')
    ])
unfolding watch_entry_put
fired e es base s next b none same = tt
fired e es base s next b (some (err x, s')) (same, _, local) = (rw same b, local)
fired e es base s next b (some (ok u, s')) (same, _, local) =
    Holds-weaken (Left base (watch_entry_put e.watch s')) (Left base s)
      (process es (watch_entry_put e.watch s')) (λ r p. (p.0, p.1 ∙ local))
      (next (watch_entry_put e.watch s') (
        Balanced-put (λ n. base n + count es n) s'.watches e.watch
          (rw same (λ n. omega (arith, b n)))))

process-Balanced :
    (es : List PendingEvent) (base : ℕ → ℕ) (s : Server)
    → Balanced (λ n. base n + count es n) s.watches
    → Holds (Left base s) (process es s)
unfolding process
process-Balanced [] base s b = (b, refl)
process-Balanced (e ∷ es) base s b = elim (Option-cases (watch_at s.watches e.watch)) [
  | inl freed ↦ rw (freed, process) tt
  | inr (w, at) ↦ elim (Bool-cases (same_domain (some s.domid) w.domain)) [
    | inr other ↦ subst (Holds (Left base s)) (sym (process-kept e es s w at other)) (
        Holds-map (Left (λ n. base n + one e.watch n) s) (Left base s)
          (λ (r : List PendingEvent × Server). (e ∷ r.0, r.1)) (process es s)
          (λ r p. (λ n. omega (arith, p.0 n), p.1))
          (process-Balanced es (λ n. base n + one e.watch n) s (λ n. omega (arith, b n))))
    | inl ours ↦ subst (Holds (Left base s)) (sym (process-fired e es s w at ours)) (
        fired e es base s (λ s'. process-Balanced es base s') b (fire_watcher w e.event_path s)
          (fire_watcher-watches w e.event_path s))
  ]
]

-- Sending what waits for a domain keeps the counts right.
pub process_pending-IsCounted :
    (s s' : Server) → IsCounted s → process_pending_watch_events s ≡ some s' → IsCounted s'
unfolding process_pending_watch_events
process_pending-IsCounted s s' c h =
    go (process s.pending s) refl
      (process-Balanced s.pending (count s.local_events) s (λ n. omega (arith, c n)))
  where
    go :
        (o : Option (List PendingEvent × Server))
        → process s.pending s ≡ o
        → Holds (Left (count s.local_events) s) o
        → IsCounted s'
    go none e p = cc (rw (e, process_pending_watch_events) at h)
    go (some (left, s2)) e (p, local) =
        let same : record s2 { pending = left } ≡ s' =
          cc (rw (e, process_pending_watch_events) at h) in
        subst IsCounted same (rw local (λ n. omega (arith, p n)))

pub drop_pending-Balanced :
    (domain : Option ℕ) (es : List PendingEvent) (base : ℕ → ℕ) (s : Server)
    → Balanced (λ n. base n + count es n) s.watches
    → Holds (Left base s) (drop_pending domain es s)
unfolding drop_pending watch_entry_put
drop_pending-Balanced domain [] base s b = (b, refl)
drop_pending-Balanced domain (e ∷ es) base s b = elim (Option-cases (watch_at s.watches e.watch)) [
  | inl freed ↦ rw (freed, drop_pending) tt
  | inr (w, at) ↦ elim (Bool-cases (same_domain w.domain domain)) [
    | inr other ↦
        rw (at, other, drop_pending)
          (Holds-map (Left (λ n. base n + one e.watch n) s) (Left base s)
            (λ (r : List PendingEvent × Server). (e ∷ r.0, r.1)) (drop_pending domain es s)
            (λ r p. (λ n. omega (arith, p.0 n), p.1))
            (drop_pending-Balanced domain es (λ n. base n + one e.watch n) s
              (λ n. omega (arith, b n))))
    | inl its ↦
        rw (at, its, drop_pending)
          (drop_pending-Balanced domain es base (watch_entry_put e.watch s)
            (Balanced-put (λ n. base n + count es n) s.watches e.watch (λ n. omega (arith, b n))))
  ]
]
