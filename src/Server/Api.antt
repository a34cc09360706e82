-- ===== src/Server/Api.antt =====
-- The server-side API: xss_write and its variants, xss_read, xss_set_perm and xss_rm. A pointer
-- argument that may be NULL is an option.
pub mod Kept
pub mod Spec
mod Tests
use zephyr_xenlib.Clib.{tokens}
use zephyr_xenlib.Server.Handlers.SetPerms.{perms_at}
use zephyr_xenlib.Store.Write.{do_write, set_perms_by_array, Walk}
use zephyr_xenlib.Server.Handlers.Change.{notify_watchers, lock, xss_do_rm}
use zephyr_xenlib.Store.Alloc.{k_malloc, Mem}
use zephyr_xenlib.Common.Perm.{perm_read, perm_none, PermEntry}
use zephyr_xenlib.Store.Tree.{value, xenstore_local_domain_id, key_to_entry_check_perm, Entry}
use zephyr_xenlib.Errno.{enomem, ok, enoent, einval, err, Result}
use zephyr_xenlib.Server.State.{Server}
use mathlib.Core.Option
use zephyr_xenlib.Prelude.{ℕ, Option, none, some, List, [], ◌∷◌, take, ◌==◌, if◌then◌else◌}

-- xss_do_write for the server's own domain. The lock is taken only where the path could be copied.
unfoldable pub do_write_own :
    List PermEntry → List ℕ → List ℕ → Server → Option (Result (Unit {0}) × Server)
do_write_own perms path value s =
    let (r, s') = if (k_malloc s.mem).0 then lock s else (ok tt, s) in
    Option.map (λ (w : Walk). (w.0, record s' { root = w.1; mem = w.2 }))
      (do_write (some value) xenstore_local_domain_id perms path r s.root s.mem)

abbrev pub then_notify :
    List ℕ → Option (Result (Unit {0}) × Server) → Option (Result (Unit {0}) × Server)
then_notify path none = none
then_notify path (some (err e, s)) = some (err e, s)
then_notify path (some (ok _, s)) =
    Option.map (λ (s' : Server). (ok tt, s')) (notify_watchers path s)

-- What the four functions share: the arguments, the write and the notification.
unfoldable pub write_with :
    List PermEntry
    → Option (List ℕ)
    → Option (List ℕ)
    → Server
    → Option (Result (Unit {0}) × Server)
write_with perms none value s = some (err einval, s)
write_with perms (some path) none s = some (err einval, s)
write_with perms (some path) (some value) s = then_notify path (do_write_own perms path value s)

abbrev pub perm_of : ℕ → ℕ → PermEntry
perm_of domid perm = record { domid = domid; perm = perm }

unfoldable pub xss_write :
    Option (List ℕ) → Option (List ℕ) → Server → Option (Result (Unit {0}) × Server)
xss_write path value s = write_with (perm_of xenstore_local_domain_id perm_none ∷ []) path value s

unfoldable pub xss_write_guest_domain_rw :
    Option (List ℕ) → Option (List ℕ) → ℕ → Server → Option (Result (Unit {0}) × Server)
xss_write_guest_domain_rw path value domid s =
    write_with (perm_of domid perm_none ∷ []) path value s

-- The server's own domain needs no permission of its own.
unfoldable pub xss_write_guest_domain_ro :
    Option (List ℕ) → Option (List ℕ) → ℕ → Server → Option (Result (Unit {0}) × Server)
xss_write_guest_domain_ro path value domid s =
    let own = perm_of xenstore_local_domain_id perm_none in
    let perms =
      if domid == xenstore_local_domain_id then own ∷ [] else own ∷ perm_of domid perm_read ∷ [] in
    write_with perms path value s

unfoldable pub xss_write_guest_with_permissions :
    Option (List ℕ) → Option (List ℕ) → ℕ → ℕ → Server → Option (Result (Unit {0}) × Server)
xss_write_guest_with_permissions path value domid1 domid2 s =
    write_with (perm_of domid1 perm_none ∷ perm_of domid2 perm_read ∷ []) path value s

-- The first `len` bytes of the value, as strncpy copies them: a value of `len` bytes or more leaves the
-- caller's buffer without a NUL. A node without a value gives "".
abbrev pub copied : ℕ → Entry → List ℕ
copied len e = elim (value e) [ none ↦ [] | some v ↦ take len v ]

unfoldable pub xss_read : List ℕ → ℕ → Server → Option (Result (List ℕ) × Server)
xss_read path len s =
    elim (key_to_entry_check_perm s.root path xenstore_local_domain_id perm_read s.mem) [
      | none ↦ none
      | some (none, mem') ↦ some (err enoent, record s { mem = mem' })
      | some (some e, mem') ↦ some (ok (copied len e), record s { mem = mem' })
    ]

abbrev pub own_perms_set :
    List ℕ → Server → Option (List PermEntry) × Mem → Result (Unit {0}) × Server
own_perms_set path s (none, mem') = (err enomem, record s { mem = mem' })
own_perms_set path s (some ps, mem') =
    (ok tt, record s { mem = mem'; root = perms_at ps (tokens path) s.root })

unfoldable pub xss_set_perm : List ℕ → ℕ → ℕ → Server → Option (Result (Unit {0}) × Server)
xss_set_perm path domid perm s =
    elim (key_to_entry_check_perm s.root path xenstore_local_domain_id perm_none s.mem) [
      | none ↦ none
      | some (none, mem') ↦ some (err enoent, record s { mem = mem' })
      | some (some e, mem') ↦
          some (own_perms_set path s (set_perms_by_array (perm_of domid perm ∷ []) mem'))
    ]

unfoldable pub xss_rm : List ℕ → Server → Option (Result (Unit {0}) × Server)
xss_rm path s = xss_do_rm path xenstore_local_domain_id s
