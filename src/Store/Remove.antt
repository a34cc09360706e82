-- ===== src/Store/Remove.antt =====
-- Taking nodes out of the tree: free_node, and remove_ref_entries when a domain goes away.
pub mod Effect
pub mod Domain
use zephyr_xenlib.Prelude.{
  ℕ, zero, suc, ◌+◌, ◌-◌, ◌*◌, ◌/◌, ◌%◌, ◌^◌, ◌≤◌, ◌<◌, min, max, ◌≡◌, refl, sym, ap, ◌∙◌, ◌≢◌, ◌↔◌,
  ◌⊎◌, inl, inr, Bool, true, false, not, ◌&&◌, ◌||◌, Option, none, some, List, [], ◌∷◌, ◌++◌, map,
  append-nil, append_assoc, arith, ℕ_discrete, length, set, get_or, take, drop, replicate,
  length-append, length-set, get_or-set_self, get_or-set_ne, take-append-drop, length-take,
  length-drop, length-replicate, take-append, drop-append, ltb, leb, ◌==◌, if◌then◌else◌, ltb→lt,
  lt→ltb, leb→le, ==_iff, tests, Bool-cases, Option-cases, map-eq-some,
}
use zephyr_xenlib.Clib.{str_eq, tokens}
use zephyr_xenlib.Common.Perm.{PermEntry}
use zephyr_xenlib.Store.Tree.{
  perms, Entry, Children, entry, nil, cons, key, child_list, with_children, find, is_root_path,
}
use zephyr_xenlib.Store.Write.{replace}

-- sys_dlist_remove of the first child of that name, with all below it (remove_recurse).
unfoldable pub remove_child : List ℕ → Children → Children
remove_child tok nil = nil
remove_child tok (cons e cs) =
    let rest = remove_child tok cs in if str_eq (key e) tok then cs else cons e rest

-- free_node of the entry that the tokens lead to.
unfoldable pub unlink : List (List ℕ) → Entry → Entry
unlink [] e = e
unlink (tok ∷ []) e = with_children e (remove_child tok (child_list e))
unlink (tok ∷ next ∷ toks) e = elim (find tok (child_list e)) [
  | none ↦ e
  | some c ↦ with_children e (replace tok (unlink (next ∷ toks) c) (child_list e))
]

-- free_node on what key_to_entry found for `path`. The root is a static object in no list: freeing
-- and unlinking it is undefined.
unfoldable pub free_node : List ℕ → Entry → Option Entry
free_node path root = if is_root_path path then none else some (unlink (tokens path) root)

-- The permissions of the other domains, after those of `domid` are taken out.
unfoldable pub without_domid : ℕ → List PermEntry → List PermEntry
without_domid domid [] = []
without_domid domid (p ∷ ps) =
    let rest = without_domid domid ps in if p.domid == domid then rest else p ∷ rest

-- The entry's owner, the head of its list; reading it from an empty list is undefined.
unfoldable pub owner_is : ℕ → List PermEntry → Option Bool
owner_is domid [] = none
owner_is domid (p ∷ ps) = some (p.domid == domid)

-- remove_ref_entries_recursive over a list of children.
unfoldable mutual
  pub remove_refs : ℕ → Children → Option Children
  remove_refs domid nil = some nil
  remove_refs domid (cons e cs) =
      let rest = remove_refs domid cs in
      let below = remove_refs_entry domid e in
      elim (owner_is domid (perms e)) [
        | none ↦ none
        | some true ↦ rest
        | some false ↦ elim below [
          | none ↦ none
          | some e' ↦ elim rest [ none ↦ none | some cs' ↦ some (cons e' cs') ]
        ]
      ]

  pub remove_refs_entry : ℕ → Entry → Option Entry
  remove_refs_entry domid (entry k v p c) = elim (remove_refs domid c) [
    | none ↦ none
    | some c' ↦ some (entry k v (without_domid domid p) c')
  ]

unfoldable pub remove_ref_entries : ℕ → Entry → Option Entry
remove_ref_entries domid root = elim (remove_refs domid (child_list root)) [
  | none ↦ none
  | some c ↦ some (with_children root c)
]
