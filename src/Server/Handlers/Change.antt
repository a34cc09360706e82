-- ===== src/Server/Handlers/Change.antt =====
-- The handlers that change the tree: _handle_write, handle_rm, handle_set_perms, and
-- handle_get_domain_path; notify_watchers and xss_do_rm_deadline.
use mathlib.Core.Option
use zephyr_xenlib.Prelude.{
  ℕ, true, false, Option, none, some, List, [], ◌∷◌, ◌++◌, take, if◌then◌else◌,
}
use zephyr_xenlib.Errno.{Result, ok, err, einval, enomem}
use zephyr_xenlib.Clib.{cut, bytes, text_of}
use zephyr_xenlib.Common.Perm.{perm_write}
use zephyr_xenlib.Store.Alloc.{Mem, k_malloc}
use zephyr_xenlib.Store.Tree.{Entry, key_to_entry_check_perm}
use zephyr_xenlib.Store.Write.{do_write, Walk}
use zephyr_xenlib.Store.Remove.{free_node}
use zephyr_xenlib.Server.State.{Server, send_errno, send_reply, send_reply_read}
use zephyr_xenlib.Server.Watch.{lock_deadline}
use zephyr_xenlib.Server.Watch.Events.{queue_watch_notifications, dispatch_local_watch_events}
use zephyr_xenlib.Server.Handlers.{with_path, xs_write, xs_mkdir, xs_rm, xs_get_domain_path}

-- One more xss_mutex_lock_deadline: what it returned, and the state.
abbrev pub lock : Server → Result (Unit {0}) × Server
lock s = let (r, locks') = lock_deadline s.locks in (r, record s { locks = locks' })

-- The two locks that a change with its notifications takes, in turn.
unfoldable pub lock_both : Server → Result (Unit {0}) × Server
lock_both s = let (r, s1) = lock s in elim r [ err e ↦ (err e, s1) | ok _ ↦ lock s1 ]

-- notify_watchers: what it returns is ignored.
unfoldable pub notify_watchers : List ℕ → Server → Option Server
unfolding lock_both
notify_watchers path s =
    let (r, s1) = lock_both s in
    elim r [
      | err e ↦ some s1
      | ok _ ↦ elim (queue_watch_notifications path false s1) [
        | none ↦ none
        | some (_, s2) ↦ some (dispatch_local_watch_events s2)
      ]
    ]

-- construct_data: no data, or a copy with a NUL at its end, which xss_do_write reads as a string.
unfoldable pub construct_data : List ℕ → Mem → Result (Option (List ℕ)) × Mem
unfolding text_of
construct_data [] mem = (ok none, mem)
construct_data (c ∷ cs) mem =
    let (got, mem') = k_malloc mem in
    (if got then ok (some (text_of (c ∷ cs))) else err enomem, mem')

-- xss_do_write takes its lock only where the path could be copied.
unfoldable pub xss_do_write :
    Option (List ℕ) → List ℕ → Server → Option (Result (Unit {0}) × Server)
xss_do_write data_bytes path s =
    let (r, s') = if (k_malloc s.mem).0 then lock s else (ok tt, s) in
    Option.map (λ (w : Walk). (w.0, record s' { root = w.1; mem = w.2 }))
      (do_write data_bytes s.domid [] path r s.root s.mem)

-- After the write: the reply, and then the events.
unfoldable pub finish_write : ℕ → ℕ → List ℕ → Result (Unit {0}) × Server → Option Server
unfolding notify_watchers bytes
finish_write id msg_type path (err e, s) = some (send_errno id e s)
finish_write id msg_type path (ok _, s) =
    notify_watchers path (send_reply id msg_type (bytes "OK") s)

unfoldable pub write_path : ℕ → ℕ → List ℕ → List ℕ → Server → Option Server
unfolding construct_data xss_do_write finish_write
write_path id msg_type path rest s =
    let (r, mem') = construct_data rest s.mem in
    let s' = record s { mem = mem' } in
    elim r [
      | err e ↦ some (send_errno id e s')
      | ok data_bytes ↦ elim (xss_do_write data_bytes path s') [
        | none ↦ none
        | some r ↦ finish_write id msg_type path r
      ]
    ]

-- The payload holds the path's NUL, or to look for it is undefined, so the test `len < path_len`
-- never fails.
unfoldable pub handle_write : ℕ → List ℕ → Server → Option Server
unfolding write_path
handle_write id payload s = with_path id payload (write_path id xs_write) s

unfoldable pub handle_mkdir : ℕ → List ℕ → Server → Option Server
unfolding write_path
handle_mkdir id payload s = with_path id payload (write_path id xs_mkdir) s

-- xss_do_rm_deadline once the entry is found
unfoldable pub remove_found : List ℕ → Server → Option (Result (Unit {0}) × Server)
remove_found path s = elim (queue_watch_notifications path true s) [
  | none ↦ none
  | some (err e, s') ↦ some (err e, dispatch_local_watch_events s')
  | some (ok _, s') ↦
      Option.map
        (λ (root' : Entry). (ok tt, dispatch_local_watch_events (record s' { root = root' })))
        (free_node path s'.root)
]

unfoldable pub xss_do_rm : List ℕ → ℕ → Server → Option (Result (Unit {0}) × Server)
unfolding lock_both remove_found
xss_do_rm path caller_id s =
    let (r, s1) = lock_both s in
    elim r [
      | err e ↦ some (err e, s1)
      | ok _ ↦ elim (key_to_entry_check_perm s1.root path caller_id perm_write s1.mem) [
        | none ↦ none
        | some (none, mem') ↦ some (err einval, record s1 { mem = mem' })
        | some (some e, mem') ↦ remove_found path (record s1 { mem = mem' })
      ]
    ]

-- The payload is taken as the path itself.
unfoldable pub handle_rm : ℕ → List ℕ → Server → Option Server
unfolding xss_do_rm
handle_rm id payload s = elim (cut payload) [
  | none ↦ none
  | some (path, rest) ↦ elim (xss_do_rm path s.domid s) [
    | none ↦ none
    | some (err e, s') ↦ some (send_errno id e s')
    | some (ok _, s') ↦ some (send_reply_read id xs_rm [] s')
  ]
]

-- "/local/domain/" and the payload, cut to the 20 bytes that the buffer holds.
unfoldable pub handle_get_domain_path : ℕ → List ℕ → Server → Server
unfolding bytes text_of
handle_get_domain_path id payload s =
    send_reply id xs_get_domain_path (take 20 (bytes "/local/domain/" ++ text_of payload)) s
