-- ===== src/Store/Tree.antt =====
-- struct xs_entry and the lookups: key_to_entry, is_owner, check_perms.

use Prim.Native.Nat.{bit_and}
use zephyr_xenlib.Prelude.{
  ℕ, Bool, true, false, ◌&&◌, ◌||◌, Option, none, some, List, [], ◌∷◌, length, ltb, ◌==◌,
  if◌then◌else◌,
}
use zephyr_xenlib.Clib.{str_eq, tokens}
use zephyr_xenlib.Common.Perm.{PermEntry}
use zephyr_xenlib.Store.Alloc.{Mem, k_malloc}

-- An entry and its list of children. The root, whose key is NULL, has the empty key.
mutual
  pub data Entry : Type 0 where
    entry :
        (key : List ℕ) (value : Option (List ℕ)) (perms : List PermEntry) (child_list : Children)
        → Entry

  pub data Children : Type 0 where
    nil : Children
    cons : Entry → Children → Children

abbrev pub key : Entry → List ℕ
key (entry k v p c) = k

abbrev pub value : Entry → Option (List ℕ)
value (entry k v p c) = v

abbrev pub perms : Entry → List PermEntry
perms (entry k v p c) = p

abbrev pub child_list : Entry → Children
child_list (entry k v p c) = c

abbrev pub with_children : Entry → Children → Entry
with_children (entry k v p c) c' = entry k v p c'

abbrev pub xenstore_abs_path_max : ℕ
xenstore_abs_path_max = 3072

abbrev pub xenstore_rel_path_max : ℕ
xenstore_rel_path_max = 2048

abbrev pub xenstore_local_domain_id : ℕ
xenstore_local_domain_id = 0

unfoldable pub is_abs_path : List ℕ → Bool
is_abs_path [] = false
is_abs_path (c ∷ cs) = c == b'/'

unfoldable pub is_root_path : List ℕ → Bool
unfolding is_abs_path
is_root_path path = is_abs_path path && length path == 1

unfoldable pub is_owner : List PermEntry → ℕ → Bool
is_owner [] caller = false
is_owner (owner ∷ ps) caller = owner.domid == caller

-- (have & want) == want
abbrev pub allows : ℕ → ℕ → Bool
allows have want = bit_and have want == want

-- The first permission that names the caller.
unfoldable pub named_perm : List PermEntry → ℕ → Option ℕ
named_perm [] caller = none
named_perm (p ∷ ps) caller = if p.domid == caller then some p.perm else named_perm ps caller

-- The first entry's bits, for the domains that no entry names; NULL is read where there is none.
default_allows : List PermEntry → ℕ → Option Bool
default_allows [] want = none
default_allows (p ∷ ps) want = some (allows p.perm want)

unfoldable pub check_perms : List PermEntry → ℕ → ℕ → Option Bool
unfolding is_owner named_perm default_allows
check_perms ps want caller =
    if caller == xenstore_local_domain_id || is_owner ps caller
    then some true
    else elim (named_perm ps caller) [
      | some have ↦ some (allows have want)
      | none ↦ default_allows ps want
    ]

-- The first child of that name.
unfoldable pub find : List ℕ → Children → Option Entry
find tok nil = none
find tok (cons e cs) = let rest = find tok cs in if str_eq (key e) tok then some e else rest

-- Down the tree along the tokens.
unfoldable pub walk : List (List ℕ) → Entry → Option Entry
walk [] e = some e
walk (tok ∷ toks) e = elim (find tok (child_list e)) [ none ↦ none | some c ↦ walk toks c ]

-- The loop of key_to_entry: `iter` stays NULL where the key holds no token.
unfoldable pub walk_key : List (List ℕ) → Entry → Option Entry
unfolding walk
walk_key [] e = none
walk_key (tok ∷ toks) e = walk (tok ∷ toks) e

unfoldable pub key_to_entry : Entry → List ℕ → Mem → Option Entry × Mem
unfolding walk_key is_root_path tokens
key_to_entry root k mem =
    if ltb xenstore_abs_path_max (length k)
    then (none, mem)
    else if is_root_path k
    then (some root, mem)
    else let (got, mem') = k_malloc mem in (if got then walk_key (tokens k) root else none, mem')

-- key_to_entry_check_perm; the inner option is the entry or NULL.
check_found : Option Entry → ℕ → ℕ → Option (Option Entry)
check_found none domid want = some none
check_found (some e) domid want = elim (check_perms (perms e) want domid) [
  | none ↦ none
  | some granted ↦ some (if granted then some e else none)
]

unfoldable pub key_to_entry_check_perm : Entry → List ℕ → ℕ → ℕ → Mem → Option (Option Entry × Mem)
unfolding check_found
key_to_entry_check_perm root k domid want mem =
    let (found, mem') = key_to_entry root k mem in
    elim (check_found found domid want) [ none ↦ none | some e ↦ some (e, mem') ]
