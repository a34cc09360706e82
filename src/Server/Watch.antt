-- ===== src/Server/Watch.antt =====
-- Watches and their events: key_to_watcher, the queueing of events for a changed path,
-- process_pending_watch_events, and what a domain that goes away leaves.
pub mod Events
pub mod Refs
pub mod Counted
pub mod Sent
pub mod Total
pub mod Cleanup
pub mod Added
pub mod Notified
use zephyr_xenlib.Prelude.{
  ℕ, zero, suc, ◌+◌, ◌-◌, ◌*◌, ◌/◌, ◌%◌, ◌^◌, ◌≤◌, ◌<◌, min, max, ◌≡◌, refl, sym, ap, ◌∙◌, ◌≢◌, ◌↔◌,
  ◌⊎◌, inl, inr, Bool, true, false, not, ◌&&◌, ◌||◌, Option, none, some, List, [], ◌∷◌, ◌++◌, map,
  append-nil, append_assoc, arith, ℕ_discrete, length, set, get_or, take, drop, replicate,
  length-append, length-set, get_or-set_self, get_or-set_ne, take-append-drop, length-take,
  length-drop, length-replicate, take-append, drop-append, ltb, leb, ◌==◌, if◌then◌else◌, ltb→lt,
  lt→ltb, leb→le, ==_iff, tests, Bool-cases, Option-cases, map-eq-some,
}
use zephyr_xenlib.Errno.{Result, ok, err, enomem}
use zephyr_xenlib.Clib.{str_eq}
use zephyr_xenlib.Store.Alloc.{k_malloc}
use zephyr_xenlib.Server.State.{Server, Watch, PendingEvent}

-- The entry behind a pointer; `none` where it is freed.
unfoldable pub watch_at : List Watch → ℕ → Option Watch
watch_at [] n = none
watch_at (w ∷ ws) zero = if w.ref == 0 then none else some w
watch_at (w ∷ ws) (suc n) = watch_at ws n

unfoldable pub change_at : (Watch → Watch) → List Watch → ℕ → List Watch
change_at f [] n = []
change_at f (w ∷ ws) zero = f w ∷ ws
change_at f (w ∷ ws) (suc n) = w ∷ change_at f ws n

-- sys_ref_get and sys_ref_put
abbrev pub ref_get : Watch → Watch
ref_get w = record w { ref = w.ref + 1 }

abbrev pub ref_put : Watch → Watch
ref_put w = record w { ref = w.ref - 1 }

unfoldable pub watch_entry_get : ℕ → Server → Server
watch_entry_get n s = record s { watches = change_at ref_get s.watches n }

unfoldable pub watch_entry_put : ℕ → Server → Server
watch_entry_put n s = record s { watches = change_at ref_put s.watches n }

abbrev unlink_watch : Watch → Watch
unlink_watch w = record w { linked = false }

-- sys_dlist_remove, and the reference of the list
unfoldable pub remove_watch_entry : ℕ → Server → Server
unfolding watch_entry_put
remove_watch_entry n s =
    watch_entry_put n (record s { watches = change_at unlink_watch s.watches n })

-- Pointers to struct xen_domain, compared.
abbrev pub same_domain : Option ℕ → Option ℕ → Bool
same_domain none none = true
same_domain none (some e) = false
same_domain (some d) none = false
same_domain (some d) (some e) = d == e

abbrev pub key_matches : List ℕ → List ℕ → Option ℕ → Watch → Bool
key_matches key token domain w =
    w.linked
    && same_domain w.domain domain
    && str_eq w.path key
    && (length token == 0 || str_eq w.token token)

-- The search from the place `n` on; an empty token matches any.
unfoldable pub key_to_watcher_from : List ℕ → List ℕ → Option ℕ → List Watch → ℕ → Option ℕ
key_to_watcher_from key token domain [] n = none
key_to_watcher_from key token domain (w ∷ ws) n =
    let rest = key_to_watcher_from key token domain ws (n + 1) in
    if key_matches key token domain w then some n else rest

unfoldable pub key_to_watcher : List ℕ → List ℕ → Option ℕ → List Watch → Option ℕ
unfolding key_to_watcher_from
key_to_watcher key token domain ws = key_to_watcher_from key token domain ws 0

-- xss_mutex_lock_deadline
abbrev pub lock_deadline : List (Result (Unit {0})) → Result (Unit {0}) × List (Result (Unit {0}))
lock_deadline [] = (ok tt, [])
lock_deadline (r ∷ rs) = (r, rs)

abbrev pub event : List ℕ → ℕ → PendingEvent
event path n = record { event_path = path; watch = n }

-- The event itself waits in `local_events`; the caller logs a failure and goes on.
unfoldable pub queue_local_watch_event : ℕ → List ℕ → Server → Server
unfolding watch_entry_get
queue_local_watch_event n path s =
    let (got, mem') = k_malloc s.mem in
    let s' = record s { mem = mem' } in
    if got
    then watch_entry_get n (record s' { local_events = s.local_events ++ event path n ∷ [] })
    else s'

-- The lock of pending_watch_event_list, with the reference taken before it.
unfoldable pub append_pending : ℕ → List ℕ → Server → Result (Unit {0}) × Server
unfolding watch_entry_get watch_entry_put
append_pending n path s =
    let (r, locks') = lock_deadline s.locks in
    let s1 = watch_entry_get n (record s { locks = locks' }) in
    elim r [
      | err e ↦ (err e, watch_entry_put n s1)
      | ok _ ↦ (ok tt, record s1 { pending = s1.pending ++ event path n ∷ [] })
    ]

-- The entry and its path are allocated; the domain's thread is woken up, which changes nothing here.
unfoldable pub queue_pending_watch_event : ℕ → List ℕ → Server → Result (Unit {0}) × Server
unfolding append_pending
queue_pending_watch_event n path s =
    let (got1, mem1) = k_malloc s.mem in
    let (got2, mem2) = k_malloc mem1 in
    if not got1
    then (err enomem, record s { mem = mem1 })
    else if not got2
    then (err enomem, record s { mem = mem2 })
    else append_pending n path (record s { mem = mem2 })
