-- ===== src/Server/Traverse/Depth.antt =====
-- How deep xss_list_traverse goes.
use zephyr_xenlib.Errno.{ok}
use zephyr_xenlib.Server.State.{Server}
use zephyr_xenlib.Server.Traverse.{Visit, visit, traverse_entry, traverse_list, xss_list_traverse}
use zephyr_xenlib.Store.Tree.{key_to_entry, Children, Entry, nil, cons, entry}
use zephyr_xenlib.Prelude.{
  ℕ, ◌+◌, ◌≤◌, ◌<◌, ◌≡◌, refl, sym, ap, ◌∙◌, inl, inr, true, false, some, List, [], ◌∷◌, ◌++◌,
  arith, ltb, leb, if◌then◌else◌, tests, Bool-cases,
}

-- All nodes, each before the nodes below it.
mutual
  pub preorder : ℕ → Entry → List Visit
  preorder d (entry k v p c) = visit k v d ∷ preorder_list (d + 1) c

  pub preorder_list : ℕ → Children → List Visit
  preorder_list d nil = []
  preorder_list d (cons e cs) = preorder d e ++ preorder_list d cs

-- Those of a depth less than `most`.
pub shallow : ℕ → List Visit → List Visit
shallow most [] = []
shallow most (x ∷ xs) = let rest = shallow most xs in if ltb x.depth most then x ∷ rest else rest

shallow-append :
    (most : ℕ) (xs ys : List Visit) → shallow most (xs ++ ys) ≡ shallow most xs ++ shallow most ys
unfolding shallow
shallow-append most [] ys = refl
shallow-append most (x ∷ xs) ys = elim (Bool-cases (ltb x.depth most)) [
  | inl near ↦ rw near (ap (λ l. x ∷ l) (shallow-append most xs ys))
  | inr far ↦ rw far (shallow-append most xs ys)
]

mutual
  unfolding shallow preorder preorder_list

  -- Nothing below the limit is shallow.
  deep : (most d : ℕ) (e : Entry) → most ≤ d → shallow most (preorder d e) ≡ []
  deep most d (entry k v p c) h =
      let far : ltb d most ≡ false = grind (arith, tests) in
      rw far (deep_list most (d + 1) c (omega arith))

  deep_list : (most d : ℕ) (cs : Children) → most ≤ d → shallow most (preorder_list d cs) ≡ []
  deep_list most d nil h = refl
  deep_list most d (cons e cs) h =
      shallow-append most (preorder d e) (preorder_list d cs)
      ∙ ap (λ l. l ++ shallow most (preorder_list d cs)) (deep most d e h)
      ∙ deep_list most d cs h

mutual
  unfolding shallow preorder preorder_list traverse_entry traverse_list

  entry-shallow :
      (most d : ℕ) (e : Entry) → d < most → traverse_entry most d e ≡ shallow most (preorder d e)
  entry-shallow most d (entry k v p c) h =
      let near : ltb d most ≡ true = grind (arith, tests) in
      elim (Bool-cases (leb most (d + 1))) [
        | inl last ↦
            let end : most ≤ d + 1 = grind (arith, tests) in
            rw (near, last) (ap (λ l. visit k v d ∷ l) (sym (deep_list most (d + 1) c end)))
        | inr more ↦
            let on : d + 1 < most = grind (arith, tests) in
            rw (near, more) (ap (λ l. visit k v d ∷ l) (list-shallow most (d + 1) c on))
      ]

  list-shallow :
      (most d : ℕ) (cs : Children)
      → d < most
      → traverse_list most d cs ≡ shallow most (preorder_list d cs)
  list-shallow most d nil h = refl
  list-shallow most d (cons e cs) h =
      ap (λ l. l ++ traverse_list most d cs) (entry-shallow most d e h)
      ∙ ap (λ l. shallow most (preorder d e) ++ l) (list-shallow most d cs h)
      ∙ sym (shallow-append most (preorder d e) (preorder_list d cs))

-- xss_list_traverse with a callback, at a path that leads to a node, where
-- CONFIG_XENSTORE_TREE_TRAVERSE_DEPTH is at least 2: it calls the callback once for each node of a depth
-- less than that, the node itself at depth 0, each before the nodes below it, and leaves the tree alone.
pub xss_list_traverse-shallow :
    (most : ℕ) (path : List ℕ) (e : Entry) (s : Server)
    → 2 ≤ most
    → (key_to_entry s.root path s.mem).0 ≡ some e
    → (s' : Server) × (xss_list_traverse true most path s ≡ (ok (shallow most (preorder 0 e)), s'))
      × (s'.root ≡ s.root)
unfolding xss_list_traverse shallow preorder preorder_list
xss_list_traverse-shallow most path (entry k v p c) s h there =
    let near : ltb 0 most ≡ true = grind (arith, tests) in
    (
      record s { mem = (key_to_entry s.root path s.mem).1 },
      rw (there, near)
          (ap (λ l. (ok (visit k v 0 ∷ l), record s { mem = (key_to_entry s.root path s.mem).1 }))
            (list-shallow most 1 c (omega (arith, h)))),
      refl,
    )
