-- ===== src/Store/Write/Leaked.antt =====
-- What a guest meets after a write that failed half-way.
use zephyr_xenlib.Errno.{enomem, err, ok}
use zephyr_xenlib.Store.Alloc.{Mem}
use zephyr_xenlib.Store.Write.Atomic.{do_write-leaks}
use zephyr_xenlib.Store.Write.Find.{find-append}
use zephyr_xenlib.Store.Write.Path.{key_to_entry-walk}
use zephyr_xenlib.Store.Write.{do_write, fresh, append}
use zephyr_xenlib.Store.Tree.{
  xenstore_abs_path_max, Entry, perms, child_list, with_children, find, walk, check_perms,
  key_to_entry, key_to_entry_check_perm, entry,
}
use zephyr_xenlib.Clib.{tokens, str_eq, str_eq_iff}
use zephyr_xenlib.Common.Perm.{PermEntry, perm_write}
use zephyr_xenlib.Prelude.{
  ℕ, ◌≤◌, ◌<◌, ◌≡◌, refl, ap, ◌∙◌, true, false, Option, none, some, List, [], ◌∷◌, arith, length,
}

fresh_there :
    (tok : List ℕ) (root : Entry)
    → find tok (child_list root) ≡ none
    → walk (tok ∷ []) (with_children root (append (child_list root) (fresh tok [])))
      ≡ some (fresh tok [])
unfolding walk
fresh_there tok (entry k v p c) missing =
    let same : str_eq tok tok ≡ true = (str_eq_iff tok tok).1 refl in
    rw (find-append tok c (fresh tok []), missing, same, walk) refl

nothing_there :
    (tok : List ℕ) (root : Entry) → find tok (child_list root) ≡ none → walk (tok ∷ []) root ≡ none
unfolding walk
nothing_there tok (entry k v p c) missing = rw (missing, walk) refl

-- A node without permissions, asked for by a guest.
no_perms : (want caller : ℕ) → 0 < caller → check_perms [] want caller ≡ none
unfolding check_perms
no_perms want caller guest = ground (arith, guest)

-- A write along a path whose first component is missing, by a domain that may write at the root, while
-- the allocation of the first permission of the new node fails: the code is ENOMEM, but the node is left
-- in the tree. Where the path of that component led to no node before, a later lookup of it with any
-- permission by any guest reads through NULL, while memory lasts.
pub do_write-key_to_entry_check_perm :
    (d : Option (List ℕ)) (domid : ℕ) (p : PermEntry) (ps : List PermEntry)
    (path tok first : List ℕ) (toks : List (List ℕ)) (root : Entry) (m : Mem) (caller want : ℕ)
    → tokens path ≡ tok ∷ toks
    → find tok (child_list root) ≡ none
    → check_perms (perms root) perm_write domid ≡ some true
    → tokens first ≡ tok ∷ []
    → length first ≤ xenstore_abs_path_max
    → 0 < caller
    → (root' : Entry) × (do_write d domid
          (p ∷ ps)
          path
          (ok tt)
          root
          (true ∷ true ∷ true ∷ false ∷ m)
        ≡ some (err enomem, root', m))
      × (key_to_entry root first [] ≡ (none, []))
      × (key_to_entry_check_perm root' first caller want [] ≡ none)
unfolding key_to_entry_check_perm
do_write-key_to_entry_check_perm d domid p ps path tok first toks root m caller want e missing
      granted alone short guest =
    let root' : Entry = with_children root (append (child_list root) (fresh tok [])) in
    let found : key_to_entry root' first [] ≡ (some (fresh tok []), []) =
      key_to_entry-walk root' first tok [] alone short
      ∙ ap (λ o. (o, [])) (fresh_there tok root missing) in
    (
      root',
      do_write-leaks d domid p ps path tok toks root m e missing granted,
      key_to_entry-walk root first tok [] alone short
          ∙ ap (λ o. (o, [])) (nothing_there tok root missing),
      rw (found, no_perms want caller guest, key_to_entry_check_perm) refl,
    )
