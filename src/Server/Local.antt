-- ===== src/Server/Local.antt =====
-- The library functions on the server's own tree: xs_read_timeout, xs_write_timeout, xs_rm_timeout,
-- xs_directory_timeout, xs_get_permissions_timeout, xs_set_permissions_timeout and xs_mkdir_timeout.
-- A pointer argument that may be NULL is an option. A buffer is whether one is given, and its size.
pub mod Listed
mod Tests
use zephyr_xenlib.Store.Tree.{nil, cons, key, value, child_list}
use zephyr_xenlib.Server.Watch.Events.{dispatch_local_watch_events, queue_watch_notifications}
use zephyr_xenlib.Store.Path.{construct_path}
use zephyr_xenlib.Server.Handlers.{value_or_empty}
use zephyr_xenlib.Store.Write.{set_perms_by_array}
use zephyr_xenlib.Errno.{enoent, einval, enotsup, ok, err, Result}
use zephyr_xenlib.Server.State.{Server}
use zephyr_xenlib.Server.Handlers.Change.{xss_do_rm, lock, lock_both}
use zephyr_xenlib.Store.Tree.{
  value, key_to_entry_check_perm, child_list, key, xenstore_local_domain_id, perms, cons, Entry,
  Children,
}
use zephyr_xenlib.Common.Perm.{perm_read, perm_none, PermEntry}
use zephyr_xenlib.Server.Api.{do_write_own, own_perms_set, perm_of}
use zephyr_xenlib.Prelude.{
  ℕ, ◌+◌, ◌-◌, min, Bool, false, not, ◌&&◌, Option, none, some, List, [], ◌∷◌, ◌++◌, length, take,
  ltb, ◌==◌, if◌then◌else◌,
}

abbrev pub xs_transaction_none : ℕ
xs_transaction_none = 0

-- What each begins with: the path of the server's own domain, outside any transaction.
unfoldable pub with_local {ℓ} :
    {A : Type ℓ}
    → List ℕ
    → ℕ
    → (List ℕ → Server → Option (Result A × Server))
    → Server
    → Option (Result A × Server)
with_local path tx_id next s =
    let (r, mem') = construct_path path xenstore_local_domain_id s.mem in
    let s' = record s { mem = mem' } in
    if tx_id == xs_transaction_none
    then elim r [ err e ↦ some (err e, s') | ok local ↦ next local s' ]
    else some (err enotsup, s)

-- The lock and the lookup.
unfoldable pub with_entry {ℓ} :
    {A : Type ℓ}
    → ℕ
    → (Entry → Server → Result A × Server)
    → List ℕ
    → Server
    → Option (Result A × Server)
with_entry want next path s =
    let (r, s1) = lock s in
    elim r [
      | err e ↦ some (err e, s1)
      | ok _ ↦ elim (key_to_entry_check_perm s1.root path xenstore_local_domain_id want s1.mem) [
        | none ↦ none
        | some (none, mem') ↦ some (err enoent, record s1 { mem = mem' })
        | some (some e, mem') ↦ some (next e (record s1 { mem = mem' }))
      ]
    ]

-- A buffer of a size other than 0 that is not given.
abbrev pub no_buffer : Bool → ℕ → Bool
no_buffer given len = ltb 0 len && not given

-- strlcpy into `len` bytes, the NUL included; what is returned is the whole value's length.
unfoldable pub read_value : ℕ → Entry → Server → Result (ℕ × List ℕ) × Server
read_value len e s = let v = value_or_empty (value e) in (ok (length v, take (len - 1) v), s)

unfoldable pub xs_read_timeout :
    Option (List ℕ) → Bool → ℕ → ℕ → Server → Option (Result (ℕ × List ℕ) × Server)
unfolding with_local with_entry read_value
xs_read_timeout none given len tx_id s = some (err einval, s)
xs_read_timeout (some path) given len tx_id s =
    if no_buffer given len
    then some (err einval, s)
    else with_local path tx_id (with_entry perm_read (read_value len)) s

-- notify_watchers_deadline, with what it returns.
unfoldable pub notify_watchers_deadline : List ℕ → Server → Option (Result (Unit {0}) × Server)
unfolding lock_both
notify_watchers_deadline path s =
    let (r, s1) = lock_both s in
    elim r [
      | err e ↦ some (err e, s1)
      | ok _ ↦ elim (queue_watch_notifications path false s1) [
        | none ↦ none
        | some (r', s2) ↦ some (r', dispatch_local_watch_events s2)
      ]
    ]

unfoldable pub write_local : List ℕ → List ℕ → Server → Option (Result (Unit {0}) × Server)
unfolding do_write_own notify_watchers_deadline
write_local value path s =
    elim (do_write_own (perm_of xenstore_local_domain_id perm_none ∷ []) path value s) [
      | none ↦ none
      | some (err e, s') ↦ some (err e, s')
      | some (ok _, s') ↦ notify_watchers_deadline path s'
    ]

unfoldable pub xs_write_timeout :
    Option (List ℕ) → Option (List ℕ) → ℕ → Server → Option (Result (Unit {0}) × Server)
unfolding with_local write_local
xs_write_timeout none value tx_id s = some (err einval, s)
xs_write_timeout (some path) none tx_id s = some (err einval, s)
xs_write_timeout (some path) (some value) tx_id s = with_local path tx_id (write_local value) s

unfoldable pub xs_mkdir_timeout : Option (List ℕ) → ℕ → Server → Option (Result (Unit {0}) × Server)
unfolding with_local write_local
xs_mkdir_timeout none tx_id s = some (err einval, s)
xs_mkdir_timeout (some path) tx_id s = with_local path tx_id (write_local []) s

abbrev pub rm_local : List ℕ → Server → Option (Result (Unit {0}) × Server)
rm_local path s = xss_do_rm path xenstore_local_domain_id s

unfoldable pub xs_rm_timeout : Option (List ℕ) → ℕ → Server → Option (Result (Unit {0}) × Server)
unfolding with_local
xs_rm_timeout none tx_id s = some (err einval, s)
xs_rm_timeout (some path) tx_id s = with_local path tx_id rm_local s

-- The sum of the names' sizes.
unfoldable pub names_size : Children → ℕ
names_size nil = 0
names_size (cons e cs) = (length (key e) + 1) + names_size cs

-- The second loop, with the bytes that are left in the buffer: each name with its NUL, the last one
-- cut where the buffer ends.
unfoldable pub copy_names : ℕ → Children → List ℕ
copy_names room nil = []
copy_names room (cons e cs) =
    let name = key e ++ 0 ∷ [] in
    let n = min (length name) room in
    let rest = copy_names (room - n) cs in if room == 0 then [] else take n name ++ rest

unfoldable pub listed : ℕ → Entry → Server → Result (ℕ × List ℕ) × Server
unfolding names_size copy_names
listed len e s = (ok (names_size (child_list e), copy_names len (child_list e)), s)

unfoldable pub xs_directory_timeout :
    Option (List ℕ) → Bool → ℕ → ℕ → Server → Option (Result (ℕ × List ℕ) × Server)
unfolding with_local with_entry listed
xs_directory_timeout none given len tx_id s = some (err einval, s)
xs_directory_timeout (some path) given len tx_id s =
    if no_buffer given len
    then some (err einval, s)
    else with_local path tx_id (with_entry perm_read (listed len)) s

-- The entries that fit into the array, and the number of all.
unfoldable pub copy_perms : ℕ → List PermEntry → List PermEntry × ℕ
copy_perms room [] = ([], 0)
copy_perms room (p ∷ ps) =
    let (more, n) = copy_perms (room - 1) ps in (if ltb 0 room then p ∷ more else more, n + 1)

unfoldable pub owned : ℕ → Entry → Server → Result (ℕ × List PermEntry) × Server
unfolding copy_perms
owned perms_num e s =
    let (fitting, total) = copy_perms perms_num (perms e) in (ok (total, fitting), s)

unfoldable pub xs_get_permissions_timeout :
    Option (List ℕ) → Bool → ℕ → ℕ → Server → Option (Result (ℕ × List PermEntry) × Server)
unfolding with_local with_entry owned
xs_get_permissions_timeout none given perms_num tx_id s = some (err einval, s)
xs_get_permissions_timeout (some path) given perms_num tx_id s =
    if no_buffer given perms_num
    then some (err einval, s)
    else with_local path tx_id (with_entry perm_read (owned perms_num)) s

abbrev pub set_local : List PermEntry → List ℕ → Entry → Server → Result (Unit {0}) × Server
set_local ps path e s = own_perms_set path s (set_perms_by_array ps s.mem)

unfoldable pub xs_set_permissions_timeout :
    Option (List ℕ) → List PermEntry → ℕ → Server → Option (Result (Unit {0}) × Server)
unfolding with_local with_entry
xs_set_permissions_timeout none ps tx_id s = some (err einval, s)
xs_set_permissions_timeout (some path) [] tx_id s = some (err einval, s)
xs_set_permissions_timeout (some path) (p ∷ ps) tx_id s =
    with_local path tx_id (λ local. with_entry perm_none (set_local (p ∷ ps) local) local) s
