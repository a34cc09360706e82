-- ===== src/Server/Traverse.antt =====
-- xss_list_traverse: a callback on a node and the nodes below it.
pub mod Depth
mod Tests
use zephyr_xenlib.Errno.{einval, ok, enoent, err, Result}
use zephyr_xenlib.Server.State.{Server}
use zephyr_xenlib.Store.Tree.{key_to_entry, Children, Entry, nil, cons, entry}
use zephyr_xenlib.Prelude.{
  ℕ, ◌+◌, Bool, Option, none, some, List, [], ◌∷◌, ◌++◌, leb, if◌then◌else◌,
}

-- One call of the callback: the key, the value and the depth.
pub record Visit : Type 0 where
  pub name : List ℕ
  pub held : Option (List ℕ)
  pub depth : ℕ

abbrev pub visit : List ℕ → Option (List ℕ) → ℕ → Visit
visit k v d = record { name = k; held = v; depth = d }

-- xss_list_traverse_entry, and its loop over the children; `most` is
-- CONFIG_XENSTORE_TREE_TRAVERSE_DEPTH.
unfoldable mutual
  pub traverse_entry : ℕ → ℕ → Entry → List Visit
  traverse_entry most d (entry k v p c) =
      let below = traverse_list most (d + 1) c in
      visit k v d ∷ (if leb most (d + 1) then [] else below)

  pub traverse_list : ℕ → ℕ → Children → List Visit
  traverse_list most d nil = []
  traverse_list most d (cons e cs) = traverse_entry most d e ++ traverse_list most d cs

abbrev pub traverse_top : ℕ → Entry → List Visit
traverse_top most (entry k v p c) = visit k v 0 ∷ traverse_list most 1 c

-- The calls of the callback, in order. The root's key is NULL, here "".
unfoldable pub xss_list_traverse : Bool → ℕ → List ℕ → Server → Result (List Visit) × Server
xss_list_traverse given most path s =
    let (found, mem') = key_to_entry s.root path s.mem in
    let s' = record s { mem = mem' } in
    if given
    then elim found [ none ↦ (err enoent, s') | some e ↦ (ok (traverse_top most e), s') ]
    else (err einval, s)
