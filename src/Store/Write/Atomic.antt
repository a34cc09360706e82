-- ===== src/Store/Write/Atomic.antt =====
-- A write that fails.
use zephyr_xenlib.Prelude.{
  ℕ, ◌≡◌, ◌≢◌, inl, inr, true, false, Option, none, some, List, [], ◌∷◌, arith, length,
  Option-cases, map-eq-some,
}
use zephyr_xenlib.Errno.{Result, ok, Errno, err, enomem}
use zephyr_xenlib.Common.Perm.{PermEntry, perm_write}
use zephyr_xenlib.Store.Alloc.{k_malloc_each-plenty, k_malloc_each, k_malloc, Mem}
use zephyr_xenlib.Clib.{tokens}
use zephyr_xenlib.Store.Tree.{check_perms, perms, child_list, with_children, Entry, entry, find}
use zephyr_xenlib.Store.Write.{
  append, fresh, do_write, write_tokens, set_perms_by_array, inherit_perms, Walk, write_value,
  write_walk, create_with, close_old,
}
use zephyr_xenlib.Store.Write.Find.{remove_last-append, replace-find}

module _ (d : Option (List ℕ)) (domid : ℕ) (ps : List PermEntry) where
  value_fails :
      (e e' : Entry) (mem mem' : Mem) (x : Errno)
      → write_value d domid ps e mem ≡ some (err x, e', mem')
      → e' ≡ e
  unfolding write_value
  value_fails (entry k v p c) e' mem mem' x h = ground arith

  create_fails :
      (below : Entry → Mem → Option Walk) (tok : List ℕ) (parent e' : Entry) (mem mem' : Mem)
      (x : Errno)
      → x ≢ enomem
      → create_with d domid ps below tok false parent mem ≡ some (err x, e', mem')
      → e' ≡ parent
  unfolding create_with
  create_fails below tok (entry k v p c) e' mem mem' x ne h = grind (arith, remove_last-append)

  walk_fails :
      (toks : List (List ℕ)) (e e' : Entry) (mem mem' : Mem) (x : Errno)
      → x ≢ enomem
      → write_walk d domid ps toks false e mem ≡ some (err x, e', mem')
      → e' ≡ e
  unfolding write_walk
  walk_fails [] e e' mem mem' x ne h = value_fails e e' mem mem' x h
  walk_fails (tok ∷ toks) (entry k v p cs) e' mem mem' x ne h = elim (Option-cases (find tok cs)) [
    | inl missing ↦
        create_fails (write_walk d domid ps toks true) tok (entry k v p cs) e' mem mem' x ne
          (rw (missing, write_walk) at h)
    | inr (c, found) ↦
        let (r, below, e) =
          map-eq-some (close_old tok (entry k v p cs)) (write_walk d domid ps toks false c mem)
            (err x, e', mem') (rw (found, write_walk) at h) in
        ground (arith, walk_fails toks c r.1 mem r.2 x, replace-find tok cs c)
  ]

  -- With memory for every allocation, whatever the code.
  create_fails_plenty :
      (below : Entry → Mem → Option Walk) (tok : List ℕ) (parent e' : Entry) (mem' : Mem)
      (x : Errno)
      → create_with d domid ps below tok false parent [] ≡ some (err x, e', mem')
      → e' ≡ parent
  unfolding create_with set_perms_by_array inherit_perms
  create_fails_plenty below tok (entry k v p c) e' mem' x h = grind (
    arith,
    remove_last-append,
    k_malloc_each-plenty 2,
    k_malloc_each-plenty (length ps),
    k_malloc_each-plenty (length p),
  )

  walk_fails_plenty :
      (toks : List (List ℕ)) (e e' : Entry) (mem' : Mem) (x : Errno)
      → write_walk d domid ps toks false e [] ≡ some (err x, e', mem')
      → e' ≡ e
  unfolding write_walk
  walk_fails_plenty [] e e' mem' x h = value_fails e e' [] mem' x h
  walk_fails_plenty (tok ∷ toks) (entry k v p cs) e' mem' x h = elim (Option-cases (find tok cs)) [
    | inl missing ↦
        create_fails_plenty (write_walk d domid ps toks true) tok (entry k v p cs) e' mem' x
          (rw (missing, write_walk) at h)
    | inr (c, found) ↦
        let (r, below, e) =
          map-eq-some (close_old tok (entry k v p cs)) (write_walk d domid ps toks false c [])
            (err x, e', mem') (rw (found, write_walk) at h) in
        ground (arith, walk_fails_plenty toks c r.1 r.2 x, replace-find tok cs c)
  ]

  tokens_fails :
      (toks : List (List ℕ)) (e e' : Entry) (mem mem' : Mem) (x : Errno)
      → x ≢ enomem
      → write_tokens d domid ps toks e mem ≡ some (err x, e', mem')
      → e' ≡ e
  unfolding write_tokens
  tokens_fails [] e e' mem mem' x ne h = cc
  tokens_fails (tok ∷ toks) e e' mem mem' x ne h = walk_fails (tok ∷ toks) e e' mem mem' x ne h

  tokens_fails_plenty :
      (toks : List (List ℕ)) (e e' : Entry) (mem' : Mem) (x : Errno)
      → write_tokens d domid ps toks e [] ≡ some (err x, e', mem')
      → e' ≡ e
  unfolding write_tokens
  tokens_fails_plenty [] e e' mem' x h = cc
  tokens_fails_plenty (tok ∷ toks) e e' mem' x h = walk_fails_plenty (tok ∷ toks) e e' mem' x h

  -- A write that fails with a code other than ENOMEM leaves the tree as it was: nodes made on the way
  -- are taken out again.
  pub do_write-atomic :
      (path : List ℕ) (lock : Result (Unit {0})) (root root' : Entry) (mem mem' : Mem) (x : Errno)
      → do_write d domid ps path lock root mem ≡ some (err x, root', mem')
      → x ≢ enomem
      → root' ≡ root
  unfolding do_write
  do_write-atomic path lock root root' mem mem' x h ne =
      ground (arith, tokens_fails (tokens path) root root' (k_malloc mem).1 mem' x ne)

  -- Where memory lasts, a write that fails leaves the tree as it was, whatever the reason.
  pub do_write-atomic_plenty :
      (path : List ℕ) (lock : Result (Unit {0})) (root root' : Entry) (mem' : Mem) (x : Errno)
      → do_write d domid ps path lock root [] ≡ some (err x, root', mem')
      → root' ≡ root
  unfolding do_write
  do_write-atomic_plenty path lock root root' mem' x h =
      ground (arith, tokens_fails_plenty (tokens path) root root' mem' x)

-- The case that is left. The first missing node of a path is made, and the allocation of its first
-- permission fails: the code is ENOMEM, and the node stays in the tree with no permissions at all.
pub do_write-leaks :
    (d : Option (List ℕ)) (domid : ℕ) (p : PermEntry) (ps : List PermEntry) (path tok : List ℕ)
    (toks : List (List ℕ)) (root : Entry) (m : Mem)
    → tokens path ≡ tok ∷ toks
    → find tok (child_list root) ≡ none
    → check_perms (perms root) perm_write domid ≡ some true
    → do_write d domid (p ∷ ps) path (ok tt) root (true ∷ true ∷ true ∷ false ∷ m)
      ≡ some (err enomem, with_children root (append (child_list root) (fresh tok [])), m)
unfolding do_write write_tokens write_walk create_with set_perms_by_array k_malloc_each
do_write-leaks d domid p ps path tok toks root m e missing granted =
    rw (e, missing, write_walk, granted, create_with)
