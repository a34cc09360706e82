-- ===== src/Store/WellFormed.antt =====
-- The invariant of the tree: every node has at least one permission (its owner), and siblings have
-- different names.
use zephyr_xenlib.Prelude.{◌<◌, ◌≡◌, none, length}
use zephyr_xenlib.Store.Tree.{Entry, Children, entry, nil, cons, key, find}

abbrev mutual
  pub IsWell : Entry → Type 0
  IsWell (entry k v p c) = (0 < length p) × AllWell c

  pub AllWell : Children → Type 0
  AllWell nil = Unit
  AllWell (cons e cs) = IsWell e × (find (key e) cs ≡ none) × AllWell cs
