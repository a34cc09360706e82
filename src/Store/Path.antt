-- ===== src/Store/Path.antt =====
-- Path strings: validation, the paths that a domain's requests stand for, and the test by which a
-- watch is matched with a changed path.
pub mod Construct
pub mod Contains
pub mod Spell
use zephyr_xenlib.Prelude.{
  ℕ, zero, suc, ◌+◌, ◌-◌, ◌*◌, ◌/◌, ◌%◌, ◌^◌, ◌≤◌, ◌<◌, min, max, ◌≡◌, refl, sym, ap, ◌∙◌, ◌≢◌, ◌↔◌,
  ◌⊎◌, inl, inr, Bool, true, false, not, ◌&&◌, ◌||◌, Option, none, some, List, [], ◌∷◌, ◌++◌, map,
  append-nil, append_assoc, arith, ℕ_discrete, length, set, get_or, take, drop, replicate,
  length-append, length-set, get_or-set_self, get_or-set_ne, take-append-drop, length-take,
  length-drop, length-replicate, take-append, drop-append, ltb, leb, ◌==◌, if◌then◌else◌, ltb→lt,
  lt→ltb, leb→le, ==_iff, tests, Bool-cases, Option-cases, map-eq-some,
}
use zephyr_xenlib.Errno.{Result, ok, err, einval, e2big, enomem}
use zephyr_xenlib.Clib.{str_eq, strip_prefix, bytes}
use zephyr_xenlib.Clib.Decimal.{print_unsigned}
use zephyr_xenlib.Store.Alloc.{Mem, k_malloc}
use zephyr_xenlib.Store.Tree.{
  is_abs_path, is_root_path, xenstore_abs_path_max, xenstore_rel_path_max,
}

unfoldable pub path_char_is_valid : ℕ → Bool
path_char_is_valid c =
    (leb b'A' c && leb c b'Z')
    || (leb b'a' c && leb c b'z')
    || (leb b'0' c && leb c b'9')
    || c == b'-'
    || c == b'_'
    || c == b'@'
    || c == b'/'

-- The loop over the characters, and the test for a slash at the end.
unfoldable pub validate_from : ℕ → List ℕ → Result (Unit {0})
unfolding path_char_is_valid
validate_from prev [] = if prev == b'/' then err einval else ok tt
validate_from prev (c ∷ cs) =
    let rest = validate_from c cs in
    if not (path_char_is_valid c)
    then err einval
    else if c == b'/' && prev == b'/'
    then err einval
    else rest

abbrev pub max_path_len : List ℕ → ℕ
max_path_len path = if is_abs_path path then xenstore_abs_path_max else xenstore_rel_path_max

unfoldable pub path_validate : List ℕ → Result (Unit {0})
path_validate [] = err einval
path_validate (c ∷ cs) = if is_root_path (c ∷ cs) then ok tt else elim (validate_from 0 (c ∷ cs)) [
  | err e ↦ err e
  | ok _ ↦ if ltb (max_path_len (c ∷ cs)) (length (c ∷ cs) + 1) then err e2big else ok tt
]

-- "/local/domain/%d/": %d of a domain id, which is small, prints as %u does.
unfoldable pub local_prefix : ℕ → List ℕ
local_prefix domid = bytes "/local/domain/" ++ print_unsigned domid ++ b'/' ∷ []

-- The text of a relative path is not cut here: for domain ids of up to six digits the buffer has room
-- for all of it.
unfoldable pub construct_path : List ℕ → ℕ → Mem → Result (List ℕ) × Mem
construct_path payload domid mem = elim (path_validate payload) [
  | err e ↦ (err e, mem)
  | ok _ ↦
      let (got, mem') = k_malloc mem in
      let path = local_prefix domid ++ payload in
      (
        if not got
            then err enomem
            else if is_abs_path payload
            then ok payload
            else if ltb xenstore_abs_path_max (length path + 1)
            then err e2big
            else ok path,
        mem',
      )
]

-- What follows the parent's text begins a new component.
begins_component : Option (List ℕ) → Bool
begins_component none = false
begins_component (some []) = false
begins_component (some (c ∷ cs)) = c == b'/'

-- Both arguments are normalised absolute paths.
unfoldable pub path_contains : List ℕ → List ℕ → Bool
unfolding begins_component
path_contains parent child =
    if str_eq parent child
    then true
    else if is_root_path parent
    then not (length child == 0)
    else begins_component (strip_prefix parent child)
