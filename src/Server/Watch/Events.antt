-- ===== src/Server/Watch/Events.antt =====
-- Events on their way: queue_watch_notifications_xsel_locked, dispatch_local_watch_events_locked,
-- fire_watcher, process_pending_watch_events, cleanup_domain_watches.
use mathlib.Core.Logic.{ite}
use mathlib.Core.Option
use zephyr_xenlib.Prelude.{
  ℕ, ◌+◌, ◌-◌, Bool, true, false, not, ◌&&◌, Option, none, some, List, [], ◌∷◌, ◌++◌, length, drop,
  ltb, if◌then◌else◌,
}
use zephyr_xenlib.Errno.{Result, ok, err, enomem, Errno-discrete}
use zephyr_xenlib.Common.Perm.{perm_read}
use zephyr_xenlib.Store.Alloc.{k_malloc}
use zephyr_xenlib.Store.Tree.{key_to_entry_check_perm, xenstore_local_domain_id}
use zephyr_xenlib.Store.Path.{path_contains, local_prefix}
use zephyr_xenlib.Server.State.{
  Server, Watch, PendingEvent, send_reply_sz, xenstore_max_out_buf_num,
}
use zephyr_xenlib.Server.Watch.{
  watch_at, queue_local_watch_event, queue_pending_watch_event, watch_entry_put, same_domain,
  lock_deadline, remove_watch_entry,
}

-- The path that an event for the watch names, or `none` where the watch is not concerned.
unfoldable pub event_path_for : List ℕ → Bool → List ℕ → Option (List ℕ)
event_path_for path recursive_remove watched =
    if path_contains watched path
    then some path
    else if recursive_remove && path_contains path watched
    then some watched
    else none

abbrev pub reader : Watch → ℕ
reader w = elim w.domain [ none ↦ xenstore_local_domain_id | some d ↦ d ]

-- What a client of the server's own domain is told of a path.
abbrev pub local_path : Watch → List ℕ → Option (List ℕ)
local_path w path =
    let loc_len = length (local_prefix xenstore_local_domain_id) in
    if not w.is_relative
    then some path
    else if ltb (length path) loc_len
    then none
    else some (drop loc_len path)

-- The event of one watch that may read the path. A failure to queue a local event is only logged.
unfoldable pub queue_event : Watch → ℕ → List ℕ → Server → Option (Result (Unit {0}) × Server)
queue_event w n path s = elim w.domain [
  | none ↦ elim (local_path w path) [
    | none ↦ none
    | some p ↦ some (ok tt, queue_local_watch_event n p s)
  ]
  | some d ↦ some (queue_pending_watch_event n path s)
]

-- One watch of the list.
unfoldable pub notify_one : List ℕ → Bool → Watch → ℕ → Server → Option (Result (Unit {0}) × Server)
unfolding queue_event event_path_for
notify_one path recursive_remove w n s =
    if not w.linked then some (ok tt, s) else elim (event_path_for path recursive_remove w.path) [
      | none ↦ some (ok tt, s)
      | some event_path ↦
          elim (key_to_entry_check_perm s.root event_path (reader w) perm_read s.mem) [
            | none ↦ none
            | some (none, mem') ↦ some (ok tt, record s { mem = mem' })
            | some (some e, mem') ↦ queue_event w n event_path (record s { mem = mem' })
          ]
    ]

-- The loop over watch_entry_list. `ws` are the entries from the place `n` on; the loop changes none
-- of their fields that it reads.
unfoldable pub notify_from :
    List ℕ → Bool → List Watch → ℕ → Server → Option (Result (Unit {0}) × Server)
unfolding notify_one
notify_from path recursive_remove [] n s = some (ok tt, s)
notify_from path recursive_remove (w ∷ ws) n s = elim (notify_one path recursive_remove w n s) [
  | none ↦ none
  | some (ok _, s') ↦ notify_from path recursive_remove ws (n + 1) s'
  | some (err e, s') ↦ some (ite (Errno-discrete e enomem) (ok tt) (err e), s')
]

unfoldable pub queue_watch_notifications :
    List ℕ → Bool → Server → Option (Result (Unit {0}) × Server)
unfolding notify_from
queue_watch_notifications path recursive_remove s =
    let (r, locks') = lock_deadline s.locks in
    let s' = record s { locks = locks' } in
    elim r [ err e ↦ some (err e, s') | ok _ ↦ notify_from path recursive_remove s'.watches 0 s' ]

-- The callbacks themselves are the client's code; each event gives its reference back.
unfoldable pub dispatch : List PendingEvent → Server → Server
unfolding watch_entry_put
dispatch [] s = s
dispatch (e ∷ es) s = dispatch es (watch_entry_put e.watch s)

unfoldable pub dispatch_local_watch_events : Server → Server
unfolding dispatch
dispatch_local_watch_events s = dispatch s.local_events (record s { local_events = [] })

abbrev pub xs_watch_event : ℕ
xs_watch_event = 15

-- "<epath>", its NUL, "<token>" and its NUL. A relative watch gets the part of the path and its NUL
-- that is behind the domain's prefix.
abbrev pub event_payload : Watch → ℕ → List ℕ → List ℕ
event_payload w domid path =
    let text = path ++ 0 ∷ [] in
    (if w.is_relative then drop (length (local_prefix domid)) text else text) ++ w.token ++ 0 ∷ []

-- fire_watcher for a watch of this connection's domain. Where the path of a relative watch is shorter
-- than the domain's prefix, the length of the payload wraps around.
unfoldable pub fire_watcher : Watch → List ℕ → Server → Option (Result (Unit {0}) × Server)
fire_watcher w path s =
    let (got, mem') = k_malloc s.mem in
    let s' = record s { mem = mem' } in
    if not w.linked
    then some (ok tt, s)
    else if ltb (xenstore_max_out_buf_num - 1) s.used_out_bufs
    then some (err enomem, s)
    else if w.is_relative && ltb (length path + 1) (length (local_prefix s.domid))
    then none
    else if not got
    then some (err enomem, s')
    else some (ok tt, send_reply_sz 0 xs_watch_event (event_payload w s.domid path) s')

-- The loop over pending_watch_event_list: the events that stay, and the state.
unfoldable pub process : List PendingEvent → Server → Option (List PendingEvent × Server)
unfolding fire_watcher
process [] s = some ([], s)
process (e ∷ es) s = elim (watch_at s.watches e.watch) [
  | none ↦ none
  | some w ↦ elim (same_domain (some s.domid) w.domain) [
    | false ↦ Option.map (λ (r : List PendingEvent × Server). (e ∷ r.0, r.1)) (process es s)
    | true ↦ elim (fire_watcher w e.event_path s) [
      | none ↦ none
      | some (err x, s') ↦ some (e ∷ es, s')
      | some (ok _, s') ↦ process es (watch_entry_put e.watch s')
    ]
  ]
]

unfoldable pub process_pending_watch_events : Server → Option Server
unfolding process
process_pending_watch_events s = elim (process s.pending s) [
  | none ↦ none
  | some (left, s') ↦ some (record s' { pending = left })
]

-- The first loop of cleanup_domain_watches, over the entries from the place `n` on.
unfoldable pub remove_watches : Option ℕ → List Watch → ℕ → Server → Server
unfolding remove_watch_entry
remove_watches domain [] n s = s
remove_watches domain (w ∷ ws) n s =
    remove_watches domain ws (n + 1)
      (if w.linked && same_domain w.domain domain then remove_watch_entry n s else s)

-- The second loop, over pending_watch_event_list.
unfoldable pub drop_pending :
    Option ℕ → List PendingEvent → Server → Option (List PendingEvent × Server)
drop_pending domain [] s = some ([], s)
drop_pending domain (e ∷ es) s = elim (watch_at s.watches e.watch) [
  | none ↦ none
  | some w ↦ elim (same_domain w.domain domain) [
    | false ↦
        Option.map (λ (r : List PendingEvent × Server). (e ∷ r.0, r.1)) (drop_pending domain es s)
    | true ↦ drop_pending domain es (watch_entry_put e.watch s)
  ]
]

unfoldable pub cleanup_domain_watches : Option ℕ → Server → Option Server
unfolding remove_watches drop_pending
cleanup_domain_watches domain s =
    let s1 = remove_watches domain s.watches 0 s in
    elim (drop_pending domain s1.pending s1) [
      | none ↦ none
      | some (left, s2) ↦ some (record s2 { pending = left })
    ]
