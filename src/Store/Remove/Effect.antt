-- ===== src/Store/Remove/Effect.antt =====
-- After free_node: the path leads nowhere, and what is not below it stays.
use mathlib.Core.Option
use mathlib.Core.Path.{subst}
use zephyr_xenlib.Prelude.{
  ℕ, ◌≡◌, refl, sym, ◌∙◌, ◌≢◌, inl, inr, false, Option, none, some, List, [], ◌∷◌, arith,
  Bool-cases, Option-cases,
}
use zephyr_xenlib.Clib.{tokens, str_eq, str_eq_iff, str_eq_ne}
use zephyr_xenlib.Common.Perm.{PermEntry}
use zephyr_xenlib.Store.Tree.{
  Entry, Children, entry, nil, cons, key, value, perms, find, walk, is_root_path,
}
use zephyr_xenlib.Store.Write.Find.{find-replace_self, find-replace_ne, key-find}
use zephyr_xenlib.Store.Write.Effect.{is_prefix}
use zephyr_xenlib.Store.WellFormed.{IsWell, AllWell}
use zephyr_xenlib.Store.Remove.{remove_child, unlink, free_node}

find-remove_child_self :
    (t : List ℕ) (cs : Children) → AllWell cs → find t (remove_child t cs) ≡ none
unfolding find remove_child
find-remove_child_self t nil w = refl
find-remove_child_self t (cons e cs) w = elim (Bool-cases (str_eq (key e) t)) [
  | inl same ↦ rw (same, ← (str_eq_iff (key e) t).0 same, remove_child) w.1
  | inr other ↦ rw (other, remove_child) (rw (other, find) (find-remove_child_self t cs w.2))
]

find-remove_child_ne :
    (t u : List ℕ) (cs : Children) → t ≢ u → find u (remove_child t cs) ≡ find u cs
unfolding find remove_child
find-remove_child_ne t u nil n = refl
find-remove_child_ne t u (cons e cs) n =
    ground (arith, find-remove_child_ne t u cs n, str_eq_iff (key e) t, str_eq_iff (key e) u)

pub find-IsWell :
    (t : List ℕ) (cs : Children) (e : Entry) → AllWell cs → find t cs ≡ some e → IsWell e
unfolding find
find-IsWell t nil e w h = cc
find-IsWell t (cons x cs) e w h = elim (Bool-cases (str_eq (key x) t)) [
  | inl same ↦ let same_entry : x ≡ e = cc (rw (same, find) at h) in subst IsWell same_entry w.0
  | inr other ↦ find-IsWell t cs e w.2 (rw (other, find) at h)
]

key-unlink : (ts : List (List ℕ)) (e : Entry) → key (unlink ts e) ≡ key e
unfolding unlink
key-unlink [] e = refl
key-unlink (t ∷ []) (entry k v p c) = refl
key-unlink (t ∷ u ∷ ts) (entry k v p c) = ground arith

walk-unlink_self :
    (t : List ℕ) (ts : List (List ℕ)) (e : Entry)
    → IsWell e
    → walk (t ∷ ts) (unlink (t ∷ ts) e) ≡ none
unfolding walk unlink
walk-unlink_self t [] (entry k v p c) w = rw (find-remove_child_self t c w.1, walk)
walk-unlink_self t (u ∷ ts) (entry k v p c) w = elim (Option-cases (find t c)) [
  | inl missing ↦ rw (missing, unlink) (rw (missing, walk))
  | inr (x, found) ↦
      let named : key (unlink (u ∷ ts) x) ≡ t = key-unlink (u ∷ ts) x ∙ key-find t c x found in
      ground (
        arith,
        found,
        find-replace_self t c x (unlink (u ∷ ts) x) found named,
        walk-unlink_self u ts x (find-IsWell t c x w.1 found),
      )
]

-- what a lookup shows of a node, its children apart
abbrev pub view : List (List ℕ) → Entry → Option (Option (List ℕ) × List PermEntry)
view q e = Option.map (λ (n : Entry). (value n, perms n)) (walk q e)

view-unlink :
    (ts q : List (List ℕ)) (e : Entry) → is_prefix ts q ≡ false → view q (unlink ts e) ≡ view q e
unfolding walk unlink
view-unlink [] q e h = cc
view-unlink (t ∷ []) [] (entry k v p c) h = refl
view-unlink (t ∷ u ∷ ts) [] (entry k v p c) h = ground arith
view-unlink (t ∷ []) (r ∷ q) (entry k v p c) h =
    rw (find-remove_child_ne t r c (λ e. ground (arith, str_eq_iff t r)), walk)
view-unlink (t ∷ u ∷ ts) (r ∷ q) (entry k v p c) h = elim (Option-cases (find t c)) [
  | inl missing ↦ rw (missing, unlink)
  | inr (x, found) ↦
      let named : key (unlink (u ∷ ts) x) ≡ t = key-unlink (u ∷ ts) x ∙ key-find t c x found in
      elim (Bool-cases (str_eq t r)) [
        | inl same ↦
            let tr : t ≡ r = (str_eq_iff t r).0 same in
            let h' : is_prefix (u ∷ ts) q ≡ false = rw same at h in
            ground (
              arith,
              tr,
              found,
              find-replace_self t c x (unlink (u ∷ ts) x) found named,
              view-unlink (u ∷ ts) q x h',
            )
        | inr other ↦ ground (
          arith,
          found,
          find-replace_ne t r c (unlink (u ∷ ts) x) (λ e. str_eq_ne t r other (sym e)) named,
        )
      ]
]

-- After free_node of a path with at least one component, on a well-formed tree, the path leads
-- nowhere.
pub free_node-removes :
    (path : List ℕ) (root root' : Entry) (t : List ℕ) (ts : List (List ℕ))
    → tokens path ≡ t ∷ ts
    → IsWell root
    → free_node path root ≡ some root'
    → walk (tokens path) root' ≡ none
unfolding free_node
free_node-removes path root root' t ts has w h = ground (arith, walk-unlink_self t ts root w)

-- A node that is not below the removed path keeps its value and its permissions.
pub free_node-frame :
    (path : List ℕ) (q : List (List ℕ)) (root root' : Entry)
    → is_prefix (tokens path) q ≡ false
    → free_node path root ≡ some root'
    → view q root' ≡ view q root
unfolding free_node
free_node-frame path q root root' apart h = elim (Bool-cases (is_root_path path)) [
  | inl yes_root ↦ cc (rw (yes_root, free_node) at h)
  | inr other ↦
      let e : unlink (tokens path) root ≡ root' = cc (rw (other, free_node) at h) in
      subst (λ x. view q x ≡ view q root) e (view-unlink (tokens path) q root apart)
]
