-- ===== src/Store/Write/Path.antt =====
-- xss_do_write as the callers see it: on path strings, by what key_to_entry returns before and after.
use mathlib.Core.Path.{subst}
use zephyr_xenlib.Prelude.{
  ℕ, ◌≤◌, ◌≡◌, refl, sym, ap, ◌∙◌, true, false, Option, some, List, [], ◌∷◌, arith, length,
}
use zephyr_xenlib.Errno.{ok}
use zephyr_xenlib.Clib.{tokens}
use zephyr_xenlib.Common.Perm.{PermEntry, perm_write}
use zephyr_xenlib.Store.Alloc.{Mem, k_malloc}
use zephyr_xenlib.Store.Tree.{
  Entry, value, perms, check_perms, walk, key_to_entry, is_root_path, xenstore_abs_path_max,
}
use zephyr_xenlib.Store.Write.{write_walk, write_tokens, do_write}
use zephyr_xenlib.Store.Write.Effect.{is_prefix, write_walk-reads}
use zephyr_xenlib.Store.Write.Frame.{write_walk-frame}
use zephyr_xenlib.Store.Write.Granted.{nearest, write_walk-granted}

-- A path with a token is not "/".
not_root : (path t : List ℕ) (ts : List (List ℕ)) → tokens path ≡ t ∷ ts → is_root_path path ≡ false
unfolding tokens is_root_path
not_root [] t ts h = refl
not_root (c ∷ []) t ts h = ground arith
not_root (c ∷ x ∷ cs) t ts h = ground arith

-- The lookup of a path with a token, where memory lasts.
pub key_to_entry-walk :
    (root : Entry) (path t : List ℕ) (ts : List (List ℕ))
    → tokens path ≡ t ∷ ts
    → length path ≤ xenstore_abs_path_max
    → key_to_entry root path [] ≡ (walk (t ∷ ts) root, [])
unfolding key_to_entry
key_to_entry-walk root path t ts h len = ground (arith, not_root path t ts h)

module _ (d : Option (List ℕ)) (domid : ℕ) (ps : List PermEntry) (path t : List ℕ)
    (ts : List (List ℕ)) (root root' : Entry) (mem mem' : Mem) (has : tokens path ≡ t ∷ ts)
    (done : do_write d domid ps path (ok tt) root mem ≡ some (ok tt, root', mem')) where
  pub went : write_walk d domid ps (t ∷ ts) false root (k_malloc mem).1 ≡ some (ok tt, root', mem')
  unfolding do_write write_tokens
  went = ground arith

  -- The write of a value along a path with at least one component, of at most
  -- XENSTORE_ABS_PATH_MAX bytes, has succeeded: then key_to_entry finds a node for the path, and the
  -- node holds the value.
  pub do_write-reads :
      (v : List ℕ)
      → d ≡ some v
      → length path ≤ xenstore_abs_path_max
      → (n : Entry) × (key_to_entry root' path [] ≡ (some n, [])) × (value n ≡ some v)
  do_write-reads v hd len =
      let (n, there, holds) =
        write_walk-reads d domid ps v (t ∷ ts) false root root' (k_malloc mem).1 mem' hd went in
      (n, key_to_entry-walk root' path t ts has len ∙ ap (λ x. (x, [])) there, holds)

  -- The write along a path with at least one component has succeeded: then key_to_entry finds the
  -- same for every other path of at most XENSTORE_ABS_PATH_MAX bytes with at least one component
  -- that is neither the path written nor above it.
  pub do_write-frame :
      (other u : List ℕ) (us : List (List ℕ))
      → tokens other ≡ u ∷ us
      → length other ≤ xenstore_abs_path_max
      → is_prefix (u ∷ us) (t ∷ ts) ≡ false
      → key_to_entry root' other [] ≡ key_to_entry root other []
  do_write-frame other u us hu len apart =
      key_to_entry-walk root' other u us hu len
      ∙ ap (λ x. (x, []))
          (write_walk-frame d domid ps (t ∷ ts) (u ∷ us) false root root' (k_malloc mem).1 mem'
            apart went)
      ∙ sym (key_to_entry-walk root other u us hu len)

  -- The write of a value along a path with at least one component has succeeded: then check_perms
  -- grants the write permission at the deepest node of the path that was there before.
  pub do_write-granted :
      (v : List ℕ)
      → d ≡ some v
      → check_perms (perms (nearest (t ∷ ts) root)) perm_write domid ≡ some true
  do_write-granted v hd =
      write_walk-granted v domid ps (t ∷ ts) false root root' (k_malloc mem).1 mem' (
        subst
          (λ x.
            write_walk x domid ps (t ∷ ts) false root (k_malloc mem).1 ≡ some (ok tt, root', mem'))
          hd went)
