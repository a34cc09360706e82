-- ===== src/Server/Handlers/SetPerms.antt =====
-- handle_set_perms, set_perms_by_strings and deserialize_perms.

use zephyr_xenlib.Prelude.{ℕ, Option, none, some, List, [], ◌∷◌, length, ◌==◌, if◌then◌else◌}
use zephyr_xenlib.Errno.{Result, ok, err, einval, enomem}
use zephyr_xenlib.Clib.{cut, bytes, tokens}
use zephyr_xenlib.Common.Perm.{PermEntry, perm_none, perm_parse_wire}
use zephyr_xenlib.Store.Alloc.{Mem, k_malloc}
use zephyr_xenlib.Store.Tree.{
  Entry, entry, child_list, with_children, find, key_to_entry_check_perm,
}
use zephyr_xenlib.Store.Write.{set_perms_by_array, replace}
use zephyr_xenlib.Server.State.{Server, send_errno, send_reply}
use zephyr_xenlib.Server.Handlers.{with_path, xs_set_perms}

-- The node that the tokens lead to gets the list.
unfoldable pub perms_at : List PermEntry → List (List ℕ) → Entry → Entry
perms_at ps [] (entry k v p c) = entry k v ps c
perms_at ps (tok ∷ toks) e = elim (find tok (child_list e)) [
  | none ↦ e
  | some c ↦ with_children e (replace tok (perms_at ps toks c) (child_list e))
]

-- The parser runs twice: to count, and to fill the array. NULL is returned for every failure.
abbrev pub filled : ℕ → Result (List PermEntry) → Option (List PermEntry)
filled n (err e) = none
filled n (ok qs) = if length qs == n then some qs else none

abbrev pub fill : List ℕ → Mem → Result (List PermEntry) → Option (List PermEntry) × Mem
fill strings mem (err e) = (none, mem)
fill strings mem (ok []) = (none, mem)
fill strings mem (ok (p ∷ ps)) =
    let (got, mem') = k_malloc mem in
    let n = length (p ∷ ps) in
    (if got then filled n (perm_parse_wire strings (some n)) else none, mem')

unfoldable pub deserialize_perms : List ℕ → Mem → Option (List PermEntry) × Mem
deserialize_perms strings mem = fill strings mem (perm_parse_wire strings none)

-- set_perms_by_strings for the entry at `path`: the code, and the state.
abbrev pub store_list : List ℕ → Server → Option (List PermEntry) × Mem → Result (Unit {0}) × Server
store_list path s (none, mem') = (err enomem, record s { mem = mem' })
store_list path s (some qs, mem') =
    (ok tt, record s { mem = mem'; root = perms_at qs (tokens path) s.root })

abbrev pub store_new : List ℕ → Server → Option (List PermEntry) × Mem → Result (Unit {0}) × Server
store_new path s (none, mem') = (err einval, record s { mem = mem' })
store_new path s (some ps, mem') = store_list path s (set_perms_by_array ps mem')

unfoldable pub set_perms_by_strings : List ℕ → List ℕ → Server → Result (Unit {0}) × Server
set_perms_by_strings path strings s = store_new path s (deserialize_perms strings s.mem)

abbrev pub answer : ℕ → Result (Unit {0}) × Server → Server
answer id (err x, s) = send_errno id x s
answer id (ok _, s) = send_reply id xs_set_perms (bytes "OK") s

-- After the lookup. For a missing entry `is_owner` is called on NULL.
abbrev pub set_found : ℕ → List ℕ → List ℕ → Server → Option (Option Entry × Mem) → Option Server
set_found id path strings s none = none
set_found id path strings s (some (none, mem')) = none
set_found id path strings s (some (some e, mem')) =
    some (answer id (set_perms_by_strings path strings (record s { mem = mem' })))

-- Once the path is made.
unfoldable pub set_perms_of : ℕ → List ℕ → List ℕ → Server → Option Server
set_perms_of id path strings s =
    set_found id path strings s (key_to_entry_check_perm s.root path s.domid perm_none s.mem)

-- Without a NUL, or with nothing behind it, there is no permission.
unfoldable pub handle_set_perms : ℕ → List ℕ → Server → Option Server
handle_set_perms id payload s = elim (cut payload) [
  | none ↦ some (send_errno id einval s)
  | some (text, rest) ↦
      if length rest == 0
      then some (send_errno id einval s)
      else with_path id payload (set_perms_of id) s
]
