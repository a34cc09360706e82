-- ===== src/Store/Write/Granted.antt =====
-- The permission that a write that succeeds had.
use zephyr_xenlib.Store.Write.Effect.{missing-ok, descend-ok}
use zephyr_xenlib.Store.Write.{write_walk, write_value, set_value}
use zephyr_xenlib.Store.Tree.{entry, find, Entry, perms, child_list, check_perms}
use zephyr_xenlib.Store.Alloc.{Mem}
use zephyr_xenlib.Errno.{ok}
use zephyr_xenlib.Common.Perm.{PermEntry, perm_write}
use zephyr_xenlib.Prelude.{
  ℕ, ◌≡◌, inl, inr, Bool, true, none, some, List, [], ◌∷◌, arith, Option-cases,
}

-- The deepest node on the path that is there.
unfoldable pub nearest : List (List ℕ) → Entry → Entry
nearest [] e = e
nearest (tok ∷ toks) e = elim (find tok (child_list e)) [ none ↦ e | some c ↦ nearest toks c ]

module _ (v : List ℕ) (domid : ℕ) (ps : List PermEntry) where
  -- A value is written only with the write permission at the deepest node that was there.
  pub write_walk-granted :
      (toks : List (List ℕ)) (ins : Bool) (e e' : Entry) (mem mem' : Mem)
      → write_walk (some v) domid ps toks ins e mem ≡ some (ok tt, e', mem')
      → check_perms (perms (nearest toks e)) perm_write domid ≡ some true
  unfolding nearest write_walk write_value set_value
  write_walk-granted [] ins (entry k w p c) e' mem mem' h = ground arith
  write_walk-granted (t ∷ ts) ins (entry k w p c) e' mem mem' h = elim (Option-cases (find t c)) [
    | inl missing ↦
        rw (missing, nearest)
          ((missing-ok (some v) domid ps t ts ins (entry k w p c) e' mem mem' missing h).granted)
    | inr (x, found) ↦
        let (f, below, put) =
          descend-ok (some v) domid ps t ts ins (entry k w p c) x e' mem mem' found h in
        rw (found, nearest) (write_walk-granted ts ins x f mem mem' below)
  ]
