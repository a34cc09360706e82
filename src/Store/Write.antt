-- ===== src/Store/Write.antt =====
-- Creating and writing nodes: set_perms_by_array, inherit_perms, xss_do_write_deadline.
pub mod Effect
pub mod Frame
pub mod Granted
pub mod Find
pub mod Path
pub mod Atomic
pub mod Leaked
pub mod Above
use zephyr_xenlib.Prelude.{
  ℕ, zero, suc, ◌+◌, ◌-◌, ◌*◌, ◌/◌, ◌%◌, ◌^◌, ◌≤◌, ◌<◌, min, max, ◌≡◌, refl, sym, ap, ◌∙◌, ◌≢◌, ◌↔◌,
  ◌⊎◌, inl, inr, Bool, true, false, not, ◌&&◌, ◌||◌, Option, none, some, List, [], ◌∷◌, ◌++◌, map,
  append-nil, append_assoc, arith, ℕ_discrete, length, set, get_or, take, drop, replicate,
  length-append, length-set, get_or-set_self, get_or-set_ne, take-append-drop, length-take,
  length-drop, length-replicate, take-append, drop-append, ltb, leb, ◌==◌, if◌then◌else◌, ltb→lt,
  lt→ltb, leb→le, ==_iff, tests, Bool-cases, Option-cases, map-eq-some,
}
use mathlib.Core.Option
use zephyr_xenlib.Errno.{Errno, Result, ok, err, eacces, enomem}
use zephyr_xenlib.Clib.{str_eq, tokens}
use zephyr_xenlib.Common.Perm.{PermEntry, perm_write}
use zephyr_xenlib.Store.Alloc.{Mem, k_malloc, k_malloc_each}
use zephyr_xenlib.Store.Tree.{
  Entry, Children, entry, nil, cons, key, value, perms, child_list, with_children, check_perms,
  find,
}

-- The new list, or NULL where an allocation failed; the entry's own list changes on success only.
unfoldable pub set_perms_by_array : List PermEntry → Mem → Option (List PermEntry) × Mem
set_perms_by_array new_perms mem =
    let (got, mem') = k_malloc_each (length new_perms) mem in
    (if got then some new_perms else none, mem')

-- A copy of the parent's list, one allocation for each entry.
unfoldable pub inherit_perms : List PermEntry → Mem → Option (List PermEntry) × Mem
inherit_perms parent_perms mem =
    let (got, mem') = k_malloc_each (length parent_perms) mem in
    (if got then some parent_perms else none, mem')

-- Without permissions given (NULL, or none of them), a new node inherits.
abbrev pub initial_perms : List PermEntry → List PermEntry → Mem → Option (List PermEntry) × Mem
initial_perms [] parent_perms mem = inherit_perms parent_perms mem
initial_perms (p ∷ ps) parent_perms mem = set_perms_by_array (p ∷ ps) mem

-- sys_dlist_append
unfoldable pub append : Children → Entry → Children
append nil e = cons e nil
append (cons x cs) e = cons x (append cs e)

-- The first child of that name, which the walk has gone down to, after what happened below it.
unfoldable pub replace : List ℕ → Entry → Children → Children
replace tok e' nil = nil
replace tok e' (cons e cs) =
    let rest = replace tok e' cs in if str_eq (key e) tok then cons e' cs else cons e rest

-- free_node(insert_entry), where `insert_entry` is the child appended last.
unfoldable pub remove_last : Children → Children
remove_last nil = nil
remove_last (cons x nil) = nil
remove_last (cons x (cons y cs)) = cons x (remove_last (cons y cs))

-- What a walk returns: the code, the entry that it started from as it is now, and the memory.
abbrev pub Walk : Type 0
Walk = Result (Unit {0}) × Entry × Mem

-- The value at the end of the path: `data` with its NUL, or no data.
unfoldable pub set_value : Entry → List ℕ → Bool → Mem → Walk
set_value e data_bytes false mem = (err eacces, e, mem)
set_value (entry k v p c) data_bytes true mem =
    let (got, mem') = k_malloc mem in
    (
      if got then ok tt else err enomem,
      if got then entry k (some data_bytes) p c else entry k v p c,
      mem',
    )

-- The node made for `tok` before its permissions are set.
abbrev pub fresh : List ℕ → List PermEntry → Entry
fresh tok ps = entry tok none ps nil

-- After the walk below a new node: the first new node (`insert_entry`) goes where it failed.
abbrev pub close_new : Bool → Entry → Walk → Walk
close_new inserted parent (ok u, e, mem) =
    (ok u, with_children parent (append (child_list parent) e), mem)
close_new true parent (err x, e, mem) =
    (err x, with_children parent (append (child_list parent) e), mem)
close_new false parent (err x, e, mem) =
    (err x, with_children parent (remove_last (append (child_list parent) e)), mem)

abbrev pub close_old : List ℕ → Entry → Walk → Walk
close_old tok parent (r, e, mem) =
    (r, with_children parent (replace tok e (child_list parent)), mem)

-- Allocation of the node and of its key.
abbrev pub alloc_node : Mem → Bool × Mem
alloc_node mem = k_malloc_each 2 mem

module _ (data_bytes : Option (List ℕ)) (domid : ℕ) (new_perms : List PermEntry) where
  unfoldable pub write_value : Entry → Mem → Option Walk
  unfolding set_value
  write_value e mem = elim data_bytes [
    | none ↦ some (ok tt, e, mem)
    | some d ↦ elim (check_perms (perms e) perm_write domid) [
      | none ↦ none
      | some granted ↦ some (set_value e d granted mem)
    ]
  ]

  -- A missing node: the permission, the memory, its permissions, and then what `below` does to it.
  -- Where its permissions cannot be set it stays in the list with none, and `insert_entry` does not
  -- point to it yet.
  unfoldable pub create_with :
      (Entry → Mem → Option Walk) → List ℕ → Bool → Entry → Mem → Option Walk
  create_with below tok inserted parent mem = elim (check_perms (perms parent) perm_write domid) [
    | none ↦ none
    | some false ↦ some (err eacces, parent, mem)
    | some true ↦
        let (got, mem1) = alloc_node mem in
        elim got [
          | false ↦ some (err enomem, parent, mem1)
          | true ↦
              let (ps, mem2) = initial_perms new_perms (perms parent) mem1 in
              elim ps [
                | none ↦ some (
                  err enomem,
                  with_children parent (append (child_list parent) (fresh tok [])),
                  mem2,
                )
                | some qs ↦ Option.map (close_new inserted parent) (below (fresh tok qs) mem2)
              ]
        ]
  ]

  -- The loop over the tokens. `inserted`: `insert_entry` is set.
  unfoldable pub write_walk : List (List ℕ) → Bool → Entry → Mem → Option Walk
  unfolding create_with
  write_walk [] inserted e mem = write_value e mem
  write_walk (tok ∷ toks) inserted parent mem = elim (find tok (child_list parent)) [
    | some child ↦ Option.map (close_old tok parent) (write_walk toks inserted child mem)
    | none ↦ create_with (write_walk toks true) tok inserted parent mem
  ]

  -- `iter` stays NULL where the path holds no token, and nothing is written.
  unfoldable pub write_tokens : List (List ℕ) → Entry → Mem → Option Walk
  write_tokens [] root mem = some (ok tt, root, mem)
  write_tokens (tok ∷ toks) root mem = write_walk (tok ∷ toks) false root mem

  -- `lock` is what xss_mutex_lock_deadline returned for `xsel_mutex`.
  unfoldable pub do_write : List ℕ → Result (Unit {0}) → Entry → Mem → Option Walk
  do_write const_path lock root mem =
      let (got, mem') = k_malloc mem in
      elim got [
        | false ↦ some (err enomem, root, mem')
        | true ↦ elim lock [
          | err e ↦ some (err e, root, mem')
          | ok _ ↦ write_tokens (tokens const_path) root mem'
        ]
      ]
