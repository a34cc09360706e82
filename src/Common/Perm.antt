-- ===== src/Common/Perm.antt =====
-- Permissions of XenStore nodes and their wire form "<letter><domid>" (xenstore-common). The output
-- pointers of the source are the results here, so its tests for NULL pointers have no counterpart.
pub mod Serial
use zephyr_xenlib.Prelude.{
  ℕ, zero, suc, ◌+◌, ◌-◌, ◌*◌, ◌/◌, ◌%◌, ◌^◌, ◌≤◌, ◌<◌, min, max, ◌≡◌, refl, sym, ap, ◌∙◌, ◌≢◌, ◌↔◌,
  ◌⊎◌, inl, inr, Bool, true, false, not, ◌&&◌, ◌||◌, Option, none, some, List, [], ◌∷◌, ◌++◌, map,
  append-nil, append_assoc, arith, ℕ_discrete, length, set, get_or, take, drop, replicate,
  length-append, length-set, get_or-set_self, get_or-set_ne, take-append-drop, length-take,
  length-drop, length-replicate, take-append, drop-append, ltb, leb, ◌==◌, if◌then◌else◌, ltb→lt,
  lt→ltb, leb→le, ==_iff, tests, Bool-cases, Option-cases, map-eq-some,
}
use zephyr_xenlib.Errno.{Errno, Result, ok, err, ◌>>=◌, einval, enospc, eproto}
use zephyr_xenlib.Clib.{Strings, done, unterminated, string, strings}
use zephyr_xenlib.Clib.Decimal.{Strtoul, strtoul}

-- enum xs_perm, a set of bits
abbrev pub perm_none : ℕ
perm_none = 0

abbrev pub perm_read : ℕ
perm_read = 1

abbrev pub perm_write : ℕ
perm_write = 2

abbrev pub perm_both : ℕ
perm_both = 3

-- struct xs_perm_entry, and struct xs_permissions less its list link
pub record PermEntry : Type 0 where
  pub domid : ℕ
  pub perm : ℕ

-- The switch is on `perm & XS_PERM_BOTH`, the two low bits.
unfoldable pub perm_to_wire : ℕ → ℕ
perm_to_wire perm =
    let low = perm % 4 in
    if low == perm_write
    then b'w'
    else if low == perm_read
    then b'r'
    else if low == perm_both
    then b'b'
    else b'n'

unfoldable pub perm_from_wire : ℕ → Result ℕ
perm_from_wire wire =
    if wire == b'w'
    then ok perm_write
    else if wire == b'r'
    then ok perm_read
    else if wire == b'b'
    then ok perm_both
    else if wire == b'n'
    then ok perm_none
    else err einval

abbrev pub domid_mask : ℕ
domid_mask = 0x7fff

-- The tests on what strtoul made of the bytes behind the letter. With a mask of all low bits,
-- `(domid & DOMID_MASK) != domid` is a comparison.
unfoldable pub domid_of : Strtoul → Result ℕ
domid_of n = if not n.converted then err eproto else elim n.rest [
  | [] ↦ if n.out_of_range || ltb domid_mask n.value then err eproto else ok n.value
  | _ ∷ _ ↦ err eproto
]

-- One entry: at least a letter and one more byte.
unfoldable pub parse_entry : List ℕ → Result PermEntry
parse_entry [] = err eproto
parse_entry (c ∷ []) = err eproto
parse_entry (c ∷ d ∷ cs) = do
  perm ← perm_from_wire c
  domid ← domid_of (strtoul (d ∷ cs))
  ok (record { domid = domid; perm = perm })

-- `room` is what is left of the array `perms`, or `none` where `perms` is NULL.
abbrev pub no_room : Option ℕ → Bool
no_room none = false
no_room (some zero) = true
no_room (some (suc n)) = false

abbrev pub less_room : Option ℕ → Option ℕ
less_room none = none
less_room (some zero) = some zero
less_room (some (suc n)) = some n

-- The entry is long enough: `entry_len < 2` fails.
abbrev long_enough : List ℕ → Bool
long_enough s = leb 2 (length s)

parse_strings : Strings → Option ℕ → Result (List PermEntry)
parse_strings done room = ok []
parse_strings unterminated room = err eproto
parse_strings (string s rest) room =
    let more = parse_strings rest (less_room room) in
    if not (long_enough s)
    then err eproto
    else if no_room room
    then err enospc
    else do e ← parse_entry s; es ← more; ok (e ∷ es)

-- The source returns the number of entries, and fills `perms` with them if it is not NULL.
pub perm_parse_wire : List ℕ → Option ℕ → Result (List PermEntry)
unfolding parse_strings
perm_parse_wire raw room = parse_strings (strings raw) room
