-- ===== src/Server/Handlers.antt =====
-- The handlers of requests (xenstore-srv/src/xenstore_srv.c, handle_*). A payload is the list of its
-- `len` bytes. `none` is undefined behaviour: to read behind the payload where it has no NUL, or
-- through NULL.
pub mod Reperm
pub mod Change
pub mod Answer
pub mod Read
pub mod Counts
pub mod Kept
pub mod SetPerms
pub mod Watches
pub mod WatchCounts
pub mod Owner
mod Tests
use mathlib.Core.Option
use zephyr_xenlib.Prelude.{
  ℕ, zero, suc, ◌+◌, ◌-◌, ◌*◌, ◌/◌, ◌%◌, ◌^◌, ◌≤◌, ◌<◌, min, max, ◌≡◌, refl, sym, ap, ◌∙◌, ◌≢◌, ◌↔◌,
  ◌⊎◌, inl, inr, Bool, true, false, not, ◌&&◌, ◌||◌, Option, none, some, List, [], ◌∷◌, ◌++◌, map,
  append-nil, append_assoc, arith, ℕ_discrete, length, set, get_or, take, drop, replicate,
  length-append, length-set, get_or-set_self, get_or-set_ne, take-append-drop, length-take,
  length-drop, length-replicate, take-append, drop-append, ltb, leb, ◌==◌, if◌then◌else◌, ltb→lt,
  lt→ltb, leb→le, ==_iff, tests, Bool-cases, Option-cases, map-eq-some,
}
use zephyr_xenlib.Errno.{ok, err, enoent, eacces, enomem, ebusy}
use zephyr_xenlib.Clib.{cut, bytes}
use zephyr_xenlib.Clib.Decimal.{print_unsigned}
use zephyr_xenlib.Common.Perm.{perm_read}
use zephyr_xenlib.Common.Perm.Serial.{serialize_perms}
use zephyr_xenlib.Store.Alloc.{k_malloc}
use zephyr_xenlib.Store.Tree.{
  Entry, Children, nil, cons, key, value, perms, child_list, check_perms, key_to_entry,
  key_to_entry_check_perm,
}
use zephyr_xenlib.Store.Path.{construct_path}
use zephyr_xenlib.Server.State.{Server, send_errno, send_reply, send_reply_read, send_reply_sz}
use zephyr_xenlib.Server.Watch.Events.{cleanup_domain_watches}

-- enum xsd_sockmsg_type
abbrev pub xs_control : ℕ
xs_control = 0

abbrev pub xs_directory : ℕ
xs_directory = 1

abbrev pub xs_read : ℕ
xs_read = 2

abbrev pub xs_get_perms : ℕ
xs_get_perms = 3

abbrev pub xs_transaction_start : ℕ
xs_transaction_start = 6

abbrev pub xs_get_domain_path : ℕ
xs_get_domain_path = 10

abbrev pub xs_write : ℕ
xs_write = 11

abbrev pub xs_mkdir : ℕ
xs_mkdir = 12

abbrev pub xs_rm : ℕ
xs_rm = 13

abbrev pub xs_set_perms : ℕ
xs_set_perms = 14

abbrev pub xs_reset_watches : ℕ
xs_reset_watches = 21

-- What the handlers begin with: the payload's first string as a path, or the error as the reply.
-- `next` gets the path and the bytes behind the first NUL.
unfoldable pub with_path :
    ℕ → List ℕ → (List ℕ → List ℕ → Server → Option Server) → Server → Option Server
with_path id payload next s = elim (cut payload) [
  | none ↦ none
  | some (text, rest) ↦
      let (r, mem') = construct_path text s.domid s.mem in
      let s' = record s { mem = mem' } in
      elim r [ err e ↦ some (send_errno id e s') | ok path ↦ next path rest s' ]
]

-- The names of the children, each with its NUL.
unfoldable pub names : Children → List ℕ
names nil = []
names (cons e cs) = key e ++ 0 ∷ names cs

unfoldable pub reply_names : ℕ → Entry → Server → Server
unfolding names
reply_names id e s =
    let (got, mem') = k_malloc s.mem in
    let s' = record s { mem = mem' } in
    if got then send_reply_sz id xs_directory (names (child_list e)) s' else send_errno id enomem s'

unfoldable pub directory_of : ℕ → List ℕ → List ℕ → Server → Option Server
unfolding reply_names
directory_of id path rest s =
    let (found, mem') = key_to_entry s.root path s.mem in
    let s' = record s { mem = mem' } in
    elim found [
      | none ↦ some (send_errno id enoent s')
      | some e ↦ elim (check_perms (perms e) perm_read s.domid) [
        | none ↦ none
        | some granted ↦ some (if granted then reply_names id e s' else send_errno id eacces s')
      ]
    ]

unfoldable pub handle_directory : ℕ → List ℕ → Server → Option Server
unfolding with_path directory_of
handle_directory id payload s = with_path id payload (directory_of id) s

-- Lookup for reading, and ENOENT where there is no node or it may not be read.
unfoldable pub with_readable :
    ℕ → (Entry → Server → Server) → List ℕ → List ℕ → Server → Option Server
with_readable id next path rest s =
    elim (key_to_entry_check_perm s.root path s.domid perm_read s.mem) [
      | none ↦ none
      | some (none, mem') ↦ some (send_errno id enoent (record s { mem = mem' }))
      | some (some e, mem') ↦ some (next e (record s { mem = mem' }))
    ]

abbrev pub value_or_empty : Option (List ℕ) → List ℕ
value_or_empty none = []
value_or_empty (some v) = v

abbrev pub reply_value : ℕ → Entry → Server → Server
reply_value id e s = send_reply_read id xs_read (value_or_empty (value e)) s

unfoldable pub handle_read : ℕ → List ℕ → Server → Option Server
unfolding with_path with_readable
handle_read id payload s = with_path id payload (with_readable id (reply_value id)) s

-- serialize_perms allocates its buffer; without memory the reply is ENOENT.
unfoldable pub reply_perms : ℕ → Entry → Server → Server
reply_perms id e s =
    let (got, mem') = k_malloc s.mem in
    let s' = record s { mem = mem' } in
    if got
    then send_reply_sz id xs_get_perms (serialize_perms (perms e)) s'
    else send_errno id enoent s'

unfoldable pub handle_get_perms : ℕ → List ℕ → Server → Option Server
unfolding with_path with_readable reply_perms
handle_get_perms id payload s = with_path id payload (with_readable id (reply_perms id)) s

unfoldable pub handle_control : ℕ → List ℕ → Server → Server
unfolding bytes
handle_control id payload s = send_reply id xs_control (bytes "OK") s

-- `transaction` is an int, and its overflow is undefined.
unfoldable pub handle_transaction_start : ℕ → List ℕ → Server → Option Server
handle_transaction_start id payload s =
    let n = s.transaction + 1 in
    if s.running_transaction == 0
    then if ltb 2147483647 n
      then none
      else some (
          send_reply id xs_transaction_start (print_unsigned n)
            (record s { transaction = n; running_transaction = n }))
    else some (send_errno id ebusy s)

unfoldable pub handle_transaction_stop : ℕ → List ℕ → Server → Server
handle_transaction_stop id payload s = record s {
  stop_transaction_id = id;
  pending_stop_transaction = true;
  running_transaction = 0;
}

unfoldable pub handle_reset_watches : ℕ → List ℕ → Server → Option Server
unfolding bytes
handle_reset_watches id payload s =
    Option.map (send_reply id xs_reset_watches (bytes "OK"))
      (cleanup_domain_watches (some s.domid) s)
