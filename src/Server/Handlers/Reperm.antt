-- ===== src/Server/Handlers/Reperm.antt =====
-- A change of the permissions at a path, seen as an update of the map from paths to nodes.
use zephyr_xenlib.Server.Handlers.SetPerms.{perms_at}
use zephyr_xenlib.Store.Remove.Effect.{view}
use zephyr_xenlib.Store.Write.Above.{same_path}
use zephyr_xenlib.Store.Write.Find.{find-replace_self, find-replace_ne, key-find}
use zephyr_xenlib.Store.Tree.{entry, key, find, walk, Entry}
use zephyr_xenlib.Clib.{str_eq_ne, str_eq_iff, str_eq}
use zephyr_xenlib.Common.Perm.{PermEntry}
use zephyr_xenlib.Prelude.{
  ℕ, ◌≡◌, refl, sym, ◌∙◌, inl, inr, Bool, true, false, Option, none, some, List, [], ◌∷◌, arith,
  if◌then◌else◌, Bool-cases, Option-cases,
}

-- A node's value and permissions, with other permissions.
abbrev pub with_perms :
    List PermEntry
    → Option (Option (List ℕ) × List PermEntry)
    → Option (Option (List ℕ) × List PermEntry)
with_perms ps none = none
with_perms ps (some (v, _)) = some (v, ps)

-- The map after the permissions at `p` are replaced.
abbrev pub repermed :
    List (List ℕ)
    → List PermEntry
    → (List (List ℕ) → Option (Option (List ℕ) × List PermEntry))
    → List (List ℕ)
    → Option (Option (List ℕ) × List PermEntry)
repermed p ps f q = if same_path q p then with_perms ps (f q) else f q

module _ (ps : List PermEntry) where
  key-perms_at : (toks : List (List ℕ)) (e : Entry) → key (perms_at ps toks e) ≡ key e
  unfolding perms_at
  key-perms_at [] (entry k v p c) = refl
  key-perms_at (t ∷ ts) (entry k v p c) = ground arith

  no_node : (b : Bool) → none ≡ (if b then with_perms ps none else none)
  no_node true = refl
  no_node false = refl

  pub view-perms_at :
      (toks q : List (List ℕ)) (e : Entry)
      → view q (perms_at ps toks e) ≡ repermed toks ps (λ r. view r e) q
  unfolding perms_at walk
  view-perms_at [] [] (entry k v p c) = refl
  view-perms_at [] (u ∷ q) (entry k v p c) = refl
  view-perms_at (t ∷ ts) [] (entry k v p c) = ground arith
  view-perms_at (t ∷ ts) (u ∷ q) (entry k v p c) = elim (Option-cases (find t c)) [
    | inl missing ↦
        rw (missing, perms_at)
          (elim (Bool-cases (str_eq u t)) [
            | inr other ↦ rw other refl
            | inl same ↦
                let gone : view (u ∷ q) (entry k v p c) ≡ none =
                  rw ((str_eq_iff u t).0 same, missing, walk) refl in
                rw gone (no_node (same_path (u ∷ q) (t ∷ ts)))
          ])
    | inr (x, found) ↦
        let f : Entry = perms_at ps ts x in
        let named : key f ≡ t = key-perms_at ts x ∙ key-find t c x found in
        rw (found, perms_at)
          (elim (Bool-cases (str_eq u t)) [
            | inr other ↦ rw (other, find-replace_ne t u c f (str_eq_ne u t other) named, walk) refl
            | inl same ↦
                let ut : u ≡ t = (str_eq_iff u t).0 same in
                let tu : str_eq t u ≡ true = (str_eq_iff t u).1 (sym ut) in
                rw (same, tu)
                  (rw (ut, find-replace_self t c x f found named, found, walk)
                    (view-perms_at ts q x))
          ])
  ]
