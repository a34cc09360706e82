-- ===== src/Store/Write/Effect.antt =====
-- A write that succeeds, taken apart, and what the path holds afterwards.
use mathlib.Core.Path.{subst}
use zephyr_xenlib.Prelude.{
  ℕ, ◌≡◌, refl, sym, ap, ◌∙◌, inl, inr, Bool, true, false, ◌&&◌, Option, none, some, List, [], ◌∷◌,
  arith, Option-cases, map-eq-some,
}
use zephyr_xenlib.Errno.{ok, err}
use zephyr_xenlib.Clib.{str_eq_iff, str_eq}
use zephyr_xenlib.Common.Perm.{PermEntry, perm_write}
use zephyr_xenlib.Store.Alloc.{Mem, k_malloc_each}
use zephyr_xenlib.Store.Tree.{
  entry, key, find, value, walk, Entry, perms, child_list, with_children, check_perms,
}
use zephyr_xenlib.Store.Write.Find.{find-append, find-replace_self, key-find}
use zephyr_xenlib.Store.Write.{
  close_old, replace, set_value, write_value, write_walk, Walk, set_perms_by_array, inherit_perms,
  initial_perms, fresh, append, close_new, create_with,
}

-- `p` is `q`, or an ancestor of it.
abbrev pub is_prefix : List (List ℕ) → List (List ℕ) → Bool
is_prefix [] q = true
is_prefix (t ∷ p) [] = false
is_prefix (t ∷ p) (u ∷ q) = str_eq t u && is_prefix p q

-- The permissions that a new node gets.
abbrev pub new_perms : List PermEntry → List PermEntry → List PermEntry
new_perms [] parent = parent
new_perms (p ∷ ps) parent = p ∷ ps

initial-ok :
    (ps parent qs : List PermEntry) (mem : Mem)
    → (initial_perms ps parent mem).0 ≡ some qs
    → qs ≡ new_perms ps parent
unfolding set_perms_by_array inherit_perms
initial-ok [] parent qs mem h = ground arith
initial-ok (p ∷ ps) parent qs mem h = ground arith

-- A successful create, taken apart: the walk below the new node succeeded with `made`.
pub record Created (d : Option (List ℕ)) (domid : ℕ) (ps : List PermEntry)
    (below : Entry → Mem → Option Walk) (tok : List ℕ) (parent e' : Entry) : Type 0 where
  pub m : Mem
  pub m' : Mem
  pub made : Entry
  pub granted : check_perms (perms parent) perm_write domid ≡ some true
  pub went : below (fresh tok (new_perms ps (perms parent))) m ≡ some (ok tt, made, m')
  pub put : e' ≡ with_children parent (append (child_list parent) made)

close_new-ok :
    (ins : Bool) (parent e' : Entry) (r : Walk) (mem' : Mem)
    → close_new ins parent r ≡ (ok tt, e', mem')
    → (r.0 ≡ ok tt) × (e' ≡ with_children parent (append (child_list parent) r.1))
close_new-ok ins parent e' (ok u, f, m) mem' h = (refl, ground arith)
close_new-ok true parent e' (err x, f, m) mem' h = cc
close_new-ok false parent e' (err x, f, m) mem' h = cc

module _ (d : Option (List ℕ)) (domid : ℕ) (ps : List PermEntry) where
  pub create-ok :
      (below : Entry → Mem → Option Walk) (tok : List ℕ) (ins : Bool) (parent e' : Entry)
      (mem mem' : Mem)
      → create_with d domid ps below tok ins parent mem ≡ some (ok tt, e', mem')
      → Created d domid ps below tok parent e'
  unfolding create_with
  create-ok below tok ins parent e' mem mem' h =
      go (check_perms (perms parent) perm_write domid) refl (k_malloc_each 2 mem).0 refl
        (initial_perms ps (perms parent) (k_malloc_each 2 mem).1).0 refl
    where
      go :
          (c : Option Bool)
          → check_perms (perms parent) perm_write domid ≡ c
          → (g : Bool) → (k_malloc_each 2 mem).0 ≡ g
          → (q : Option (List PermEntry))
          → (initial_perms ps (perms parent) (k_malloc_each 2 mem).1).0 ≡ q
          → Created d domid ps below tok parent e'
      go none ec g eg q eq = cc (rw (ec, create_with) at h)
      go (some false) ec g eg q eq = cc (rw (ec, create_with) at h)
      go (some true) ec false eg q eq = cc (rw (ec, eg, create_with) at h)
      go (some true) ec true eg none eq = cc (rw (ec, eg, eq, create_with) at h)
      go (some true) ec true eg (some qs) eq =
          let m : Mem = (initial_perms ps (perms parent) (k_malloc_each 2 mem).1).1 in
          let (r, below_eq, e) =
            map-eq-some (close_new ins parent) (below (fresh tok qs) m) (ok tt, e', mem')
              (rw (ec, eg, eq, create_with) at h) in
          let (rok, put) = close_new-ok ins parent e' r mem' e in
          record {
            m = m;
            m' = r.2;
            made = r.1;
            granted = ec;
            went = rw (← initial-ok ps (perms parent) qs (k_malloc_each 2 mem).1 eq) (ground arith);
            put = put;
          }

  -- A successful step down into a child that was there.
  pub descend-ok :
      (tok : List ℕ) (toks : List (List ℕ)) (ins : Bool) (parent c e' : Entry) (mem mem' : Mem)
      → find tok (child_list parent) ≡ some c
      → write_walk d domid ps (tok ∷ toks) ins parent mem ≡ some (ok tt, e', mem')
      → (f : Entry) × (write_walk d domid ps toks ins c mem ≡ some (ok tt, f, mem'))
        × (e' ≡ with_children parent (replace tok f (child_list parent)))
  unfolding write_walk
  descend-ok tok toks ins parent c e' mem mem' found h =
      let (r, below, e) =
        map-eq-some (close_old tok parent) (write_walk d domid ps toks ins c mem) (ok tt, e', mem')
          (rw (found, write_walk) at h) in
      (r.1, ground arith, ground arith)

  pub missing-ok :
      (tok : List ℕ) (toks : List (List ℕ)) (ins : Bool) (parent e' : Entry) (mem mem' : Mem)
      → find tok (child_list parent) ≡ none
      → write_walk d domid ps (tok ∷ toks) ins parent mem ≡ some (ok tt, e', mem')
      → Created d domid ps (write_walk d domid ps toks true) tok parent e'
  unfolding write_walk
  missing-ok tok toks ins parent e' mem mem' missing h =
      create-ok (write_walk d domid ps toks true) tok ins parent e' mem mem'
        (rw (missing, write_walk) at h)

  pub value-ok :
      (e e' : Entry) (mem mem' : Mem)
      → write_value d domid ps e mem ≡ some (ok tt, e', mem')
      → (key e' ≡ key e)
        × (perms e' ≡ perms e)
        × (child_list e' ≡ child_list e)
        × (value e' ≡ elim d [ none ↦ value e | some x ↦ some x ])
  unfolding write_value set_value
  value-ok (entry k v p c) e' mem mem' h = ground arith

  -- The walk keeps the key, and the permissions, of the node that it starts from.
  pub key-write_walk :
      (toks : List (List ℕ)) (ins : Bool) (e e' : Entry) (mem mem' : Mem)
      → write_walk d domid ps toks ins e mem ≡ some (ok tt, e', mem')
      → (key e' ≡ key e) × (perms e' ≡ perms e)
  unfolding write_walk
  key-write_walk [] ins e e' mem mem' h = let v = value-ok e e' mem mem' h in (v.0, v.1)
  key-write_walk (tok ∷ toks) ins (entry k v p c) e' mem mem' h = elim (Option-cases (find tok c)) [
    | inl missing ↦
        let m = missing-ok tok toks ins (entry k v p c) e' mem mem' missing h in
        (ap key m.put, ap perms m.put)
    | inr (x, found) ↦
        let (f, _, put) = descend-ok tok toks ins (entry k v p c) x e' mem mem' found h in
        (ap key put, ap perms put)
  ]

  -- After a successful write of a value the path leads to a node that holds it.
  pub write_walk-reads :
      (v : List ℕ) (toks : List (List ℕ)) (ins : Bool) (e e' : Entry) (mem mem' : Mem)
      → d ≡ some v
      → write_walk d domid ps toks ins e mem ≡ some (ok tt, e', mem')
      → (n : Entry) × (walk toks e' ≡ some n) × (value n ≡ some v)
  unfolding walk write_walk
  write_walk-reads v [] ins e e' mem mem' hd h =
      (e', refl, ground (arith, value-ok e e' mem mem' h))
  write_walk-reads v (tok ∷ toks) ins (entry k w p c) e' mem mem' hd h =
      elim (Option-cases (find tok c)) [
        | inl missing ↦
            let m = missing-ok tok toks ins (entry k w p c) e' mem mem' missing h in
            let (n, there, holds) =
              write_walk-reads v toks true (fresh tok (new_perms ps p)) m.made m.m m.m' hd m.went in
            let named : str_eq (key m.made) tok ≡ true =
              (str_eq_iff (key m.made) tok).1
                (key-write_walk toks true (fresh tok (new_perms ps p)) m.made m.m m.m' m.went).0 in
            (
              n,
              subst (λ x. walk (tok ∷ toks) x ≡ some n) (sym m.put)
                  (rw (find-append tok c m.made, missing, named, walk) there),
              holds,
            )
        | inr (x, found) ↦
            let (f, below, put) = descend-ok tok toks ins (entry k w p c) x e' mem mem' found h in
            let (n, there, holds) = write_walk-reads v toks ins x f mem mem' hd below in
            let named : key f ≡ tok =
              (key-write_walk toks ins x f mem mem' below).0 ∙ key-find tok c x found in
            (
              n,
              subst (λ x. walk (tok ∷ toks) x ≡ some n) (sym put)
                  (rw (find-replace_self tok c x f found named, walk) there),
              holds,
            )
      ]
