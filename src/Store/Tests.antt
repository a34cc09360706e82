-- ===== src/Store/Tests.antt =====
-- Runs of the tree's operations at concrete inputs: the tree /ab/c, with the permissions that the
-- server gives a guest's node.
use zephyr_xenlib.Store.Alloc.{k_malloc_each}
use zephyr_xenlib.Prelude.{ℕ, ◌≡◌, refl, true, false, none, some, List, [], ◌∷◌, ◌++◌, arith}
use zephyr_xenlib.Errno.{ok, err, eacces, enomem}
use zephyr_xenlib.Clib.{tokens, bytes, str_eq}
use zephyr_xenlib.Clib.Decimal.{print_from, print_unsigned}
use zephyr_xenlib.Common.Perm.{PermEntry, perm_write}
use zephyr_xenlib.Store.Tree.{
  key_to_entry_check_perm, Entry, entry, nil, cons, value, find, walk, check_perms, perms,
  key_to_entry, child_list, is_abs_path, is_root_path,
}
use zephyr_xenlib.Store.Path.{
  validate_from, path_contains, path_validate, construct_path, local_prefix,
}
use zephyr_xenlib.Store.Path.Contains.{path_contains-components, IsAbsolute}
use zephyr_xenlib.Store.Path.Construct.{construct_path_lem, construct_path-total, meant}
use zephyr_xenlib.Store.Write.{
  remove_last, set_perms_by_array, write_tokens, write_walk, write_value, do_write, append, replace,
  inherit_perms,
}
use zephyr_xenlib.Store.Write.Effect.{is_prefix}
use zephyr_xenlib.Store.Write.Granted.{nearest}
use zephyr_xenlib.Store.Write.Atomic.{do_write-atomic}
use zephyr_xenlib.Store.Write.Leaked.{do_write-key_to_entry_check_perm}
use zephyr_xenlib.Store.Write.Path.{do_write-reads, do_write-frame, do_write-granted}
use zephyr_xenlib.Store.WellFormed.{IsWell}
use zephyr_xenlib.Store.Remove.{free_node, remove_ref_entries, unlink, remove_child}
use zephyr_xenlib.Store.Remove.Effect.{free_node-removes, free_node-frame, view}
use zephyr_xenlib.Store.Remove.Domain.{remove_ref_entries_lem, AllFree}

-- "ab" and "c"
abbrev pub name_ab : List ℕ
name_ab = b'a' ∷ b'b' ∷ []

abbrev name_c : List ℕ
name_c = b'c' ∷ []

-- /ab, /ab/c, /ab/d and /abc
abbrev pub path_ab : List ℕ
path_ab = b'/' ∷ name_ab

abbrev pub path_c : List ℕ
path_c = path_ab ++ b'/' ∷ name_c

abbrev pub path_d : List ℕ
path_d = path_ab ++ b'/' ∷ b'd' ∷ []

abbrev pub path_abc : List ℕ
path_abc = path_ab ++ name_c

abbrev pub guest_perms : List PermEntry
guest_perms = record { domid = 1; perm = 0 } ∷ record { domid = 2; perm = 1 } ∷ []

abbrev pub node_c : Entry
node_c = entry name_c (some (b'x' ∷ [])) guest_perms nil

abbrev pub node_ab : Entry
node_ab = entry name_ab none guest_perms (cons node_c nil)

abbrev pub tree : Entry
tree = entry [] none (record { domid = 0; perm = 0 } ∷ []) (cons node_ab nil)

ab_fine : IsAbsolute path_ab
unfolding is_abs_path path_validate is_root_path validate_from
ab_fine = (refl, refl)

c_fine : IsAbsolute path_c
unfolding is_abs_path path_validate is_root_path validate_from
c_fine = (refl, refl)

path_contains-components_example :
    path_contains path_ab path_c ≡ is_prefix (tokens path_ab) (tokens path_c)
path_contains-components_example = path_contains-components path_ab path_c ab_fine c_fine

-- What the guest 7 means by "c".
constructed : construct_path name_c 7 [] ≡ (ok (local_prefix 7 ++ name_c), [])
unfolding construct_path bytes local_prefix print_unsigned path_validate is_root_path validate_from
    print_from
constructed = refl

construct_path_lem_example :
    IsAbsolute (local_prefix 7 ++ name_c) × (tokens (local_prefix 7 ++ name_c) ≡ meant name_c 7)
construct_path_lem_example =
    construct_path_lem name_c 7 [] [] (local_prefix 7 ++ name_c) constructed

c_valid : path_validate name_c ≡ ok tt
unfolding path_validate is_root_path validate_from
c_valid = refl

construct_path-total_example : (path : List ℕ) × (construct_path name_c 7 [] ≡ (ok path, []))
construct_path-total_example = construct_path-total name_c 7 (omega arith) c_valid

-- The guest 1 makes /ab/d with permissions that give it to the guest 3, and then may not write its
-- value.
abbrev for_other : List PermEntry
for_other = record { domid = 3; perm = 0 } ∷ []

refused : do_write (some []) 1 for_other path_d (ok tt) tree [] ≡ some (err eacces, tree, [])
unfolding do_write tokens find check_perms str_eq write_tokens write_walk replace k_malloc_each
    set_perms_by_array write_value remove_last append
refused = refl

do_write-atomic_example : tree ≡ tree
do_write-atomic_example =
    do_write-atomic (some []) 1 for_other path_d (ok tt) tree tree [] [] eacces refused (λ e. cc e)

abc_tokens : tokens path_abc ≡ (name_ab ++ name_c) ∷ []
unfolding tokens
abc_tokens = refl

abc_missing : find (name_ab ++ name_c) (child_list tree) ≡ none
unfolding find str_eq
abc_missing = refl

server_writes : check_perms (perms tree) perm_write 0 ≡ some true
unfolding check_perms
server_writes = refl

-- The guest 1 looks up /abc, for reading.
do_write-key_to_entry_check_perm_example :
    (root' : Entry) × (do_write none 0 guest_perms path_abc
        (ok tt)
        tree
        (true ∷ true ∷ true ∷ false ∷ [])
      ≡ some (err enomem, root', []))
    × (key_to_entry tree path_abc [] ≡ (none, []))
    × (key_to_entry_check_perm root' path_abc 1 1 [] ≡ none)
do_write-key_to_entry_check_perm_example =
    do_write-key_to_entry_check_perm none 0 (record { domid = 1; perm = 0 })
      (record { domid = 2; perm = 1 } ∷ []) path_abc (name_ab ++ name_c) path_abc [] tree [] 1 1
      abc_tokens abc_missing server_writes abc_tokens (omega arith) (omega arith)

pub d_tokens : tokens path_d ≡ name_ab ∷ (b'd' ∷ []) ∷ []
unfolding tokens
d_tokens = refl

-- The guest 1 owns /ab and makes /ab/d there.
abbrev tree_d : Entry
tree_d = entry [] none (perms tree) (
    cons
      (entry name_ab none guest_perms
        (cons node_c (cons (entry (b'd' ∷ []) (some (b'y' ∷ [])) guest_perms nil) nil)))
      nil)

granted_d : do_write (some (b'y' ∷ [])) 1 [] path_d (ok tt) tree [] ≡ some (ok tt, tree_d, [])
unfolding do_write tokens find check_perms str_eq inherit_perms replace append write_tokens
    write_walk k_malloc_each write_value
granted_d = refl

do_write-reads_example :
    (n : Entry) × (key_to_entry tree_d path_d [] ≡ (some n, [])) × (value n ≡ some (b'y' ∷ []))
do_write-reads_example =
    do_write-reads (some (b'y' ∷ [])) 1 [] path_d name_ab ((b'd' ∷ []) ∷ []) tree tree_d [] []
      d_tokens granted_d (b'y' ∷ []) refl (omega arith)

c_tokens : tokens path_c ≡ name_ab ∷ name_c ∷ []
unfolding tokens
c_tokens = refl

c_apart : is_prefix (name_ab ∷ name_c ∷ []) (name_ab ∷ (b'd' ∷ []) ∷ []) ≡ false
unfolding str_eq
c_apart = refl

do_write-frame_example : key_to_entry tree_d path_c [] ≡ key_to_entry tree path_c []
do_write-frame_example =
    do_write-frame (some (b'y' ∷ [])) 1 [] path_d name_ab ((b'd' ∷ []) ∷ []) tree tree_d [] []
      d_tokens granted_d path_c name_ab (name_c ∷ []) c_tokens (omega arith) c_apart

do_write-granted_example :
    check_perms (perms (nearest (name_ab ∷ (b'd' ∷ []) ∷ []) tree)) perm_write 1 ≡ some true
do_write-granted_example =
    do_write-granted (some (b'y' ∷ [])) 1 [] path_d name_ab ((b'd' ∷ []) ∷ []) tree tree_d [] []
      d_tokens granted_d (b'y' ∷ []) refl

tree-IsWell : IsWell tree
unfolding find
tree-IsWell = (omega arith, ((omega arith, ((omega arith, tt), refl, tt)), refl, tt))

abbrev tree_without_c : Entry
tree_without_c = entry [] none (perms tree) (cons (entry name_ab none guest_perms nil) nil)

removed_c : free_node path_c tree ≡ some tree_without_c
unfolding free_node is_root_path tokens unlink find str_eq replace remove_child
removed_c = refl

free_node-removes_example : walk (tokens path_c) tree_without_c ≡ none
free_node-removes_example =
    free_node-removes path_c tree tree_without_c name_ab (name_c ∷ []) c_tokens tree-IsWell
      removed_c

above_apart : is_prefix (tokens path_c) (name_ab ∷ []) ≡ false
unfolding tokens str_eq
above_apart = refl

free_node-frame_example : view (name_ab ∷ []) tree_without_c ≡ view (name_ab ∷ []) tree
free_node-frame_example =
    free_node-frame path_c (name_ab ∷ []) tree tree_without_c above_apart removed_c

remove_ref_entries_lem_example :
    (root' : Entry) × (remove_ref_entries 2 tree ≡ some root')
    × IsWell root'
    × AllFree 2 (child_list root')
remove_ref_entries_lem_example = remove_ref_entries_lem 2 tree tree-IsWell
