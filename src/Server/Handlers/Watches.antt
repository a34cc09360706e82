-- ===== src/Server/Handlers/Watches.antt =====
-- handle_watch and handle_unwatch.

use mathlib.Core.Option
use zephyr_xenlib.Prelude.{
  ℕ, ◌+◌, Bool, true, not, Option, none, some, List, [], ◌∷◌, ◌++◌, length, ltb, if◌then◌else◌,
}
use zephyr_xenlib.Errno.{Result, ok, err, e2big, enomem}
use zephyr_xenlib.Clib.{cut, bytes}
use zephyr_xenlib.Common.Perm.{perm_read}
use zephyr_xenlib.Store.Alloc.{k_malloc_each}
use zephyr_xenlib.Store.Path.{construct_path, max_path_len}
use zephyr_xenlib.Store.Tree.{is_abs_path, key_to_entry_check_perm}
use zephyr_xenlib.Server.State.{Server, Watch, send_errno, send_reply}
use zephyr_xenlib.Server.Watch.{
  change_at, key_to_watcher, queue_pending_watch_event, remove_watch_entry,
}

abbrev pub xs_watch : ℕ
xs_watch = 4

abbrev pub xs_unwatch : ℕ
xs_unwatch = 5

abbrev pub set_relative : Bool → Watch → Watch
set_relative r w = record w { is_relative = r }

-- The new entry, with the reference of the list.
abbrev pub new_watch : List ℕ → List ℕ → Bool → ℕ → Watch
new_watch path token relative domid = record {
  path = path;
  token = token;
  domain = some domid;
  is_relative = relative;
  linked = true;
  ref = 1;
}

-- The watch for the path and the token: one that is there takes the form of the path, and a new one
-- takes three allocations. The result is its place in the list.
unfoldable pub find_or_add : List ℕ → List ℕ → Bool → Server → Result ℕ × Server
find_or_add path token relative s = elim (key_to_watcher path token (some s.domid) s.watches) [
  | some n ↦ (ok n, record s { watches = change_at (set_relative relative) s.watches n })
  | none ↦
      let (got, mem') = k_malloc_each 3 s.mem in
      let new = new_watch path token relative s.domid in
      if got
      then (ok (length s.watches), record s { mem = mem'; watches = s.watches ++ new ∷ [] })
      else (err enomem, record s { mem = mem' })
]

-- The first event of a watch, for a node that the domain may read. A failure is only logged.
unfoldable pub first_event : ℕ → List ℕ → Server → Option Server
first_event n path s = elim (key_to_entry_check_perm s.root path s.domid perm_read s.mem) [
  | none ↦ none
  | some (none, mem') ↦ some (record s { mem = mem' })
  | some (some e, mem') ↦ some (queue_pending_watch_event n path (record s { mem = mem' })).1
]

abbrev pub finish_watch : ℕ → List ℕ → Result ℕ × Server → Option Server
finish_watch id path (err e, s) = some (send_errno id e s)
finish_watch id path (ok n, s) = first_event n path (send_reply id xs_watch (bytes "OK") s)

-- The token behind the path, where the payload has its NUL.
abbrev pub token_of : List ℕ → Option (List ℕ)
token_of rest = Option.map (λ (x : List ℕ × List ℕ). x.0) (cut rest)

-- The path, and what `next` does with it and the token.
unfoldable pub with_watch :
    ℕ → List ℕ → (List ℕ → Option (List ℕ) → Bool → Server → Option Server) → Server → Option Server
with_watch id payload next s = elim (cut payload) [
  | none ↦ none
  | some (text, rest) ↦
      let (r, mem') = construct_path text s.domid s.mem in
      let s' = record s { mem = mem' } in
      elim r [
        | err e ↦ some (send_errno id e s')
        | ok path ↦ next path (token_of rest) (not (is_abs_path text)) s'
      ]
]

abbrev pub watch_path : ℕ → List ℕ → List ℕ → Bool → Server → Option Server
watch_path id path token relative s = finish_watch id path (find_or_add path token relative s)

-- A token without its NUL is read behind the payload: by key_to_watcher where the domain has a watch of
-- the path, or else by fire_watcher when the first event is sent. Here both are undefined at once.
abbrev pub watch_token : ℕ → List ℕ → Option (List ℕ) → Bool → Server → Option Server
watch_token id path none relative s = none
watch_token id path (some token) relative s = watch_path id path token relative s

-- strnlen of the payload, with the NUL
abbrev pub path_len : List ℕ → ℕ
path_len payload = elim (cut payload) [
  | none ↦ length payload + 1
  | some (text, rest) ↦ length text + 1
]

unfoldable pub handle_watch : ℕ → List ℕ → Server → Option Server
handle_watch id payload s =
    if ltb (max_path_len payload) (path_len payload)
    then some (send_errno id e2big s)
    else with_watch id payload (watch_token id) s

abbrev pub unwatch_found : Option ℕ → Server → Server
unwatch_found none s = s
unwatch_found (some n) s = remove_watch_entry n s

-- key_to_watcher looks at the token only where the domain has a watch of the path; an empty token finds
-- any such watch.
unfoldable pub unwatch_path : ℕ → List ℕ → Option (List ℕ) → Bool → Server → Option Server
unwatch_path id path (some token) relative s =
    let found = key_to_watcher path token (some s.domid) s.watches in
    some (send_reply id xs_unwatch [] (unwatch_found found s))
unwatch_path id path none relative s = elim (key_to_watcher path [] (some s.domid) s.watches) [
  | some n ↦ none
  | none ↦ some (send_reply id xs_unwatch [] s)
]

unfoldable pub handle_unwatch : ℕ → List ℕ → Server → Option Server
handle_unwatch id payload s = with_watch id payload (unwatch_path id) s
