-- ===== src/Store/Write/Find.antt =====
-- Lists of children: what appending, replacing and removing does to the search by name.
use zephyr_xenlib.Prelude.{ℕ, ◌≡◌, refl, ap, ◌≢◌, none, some, List, arith, if◌then◌else◌}
use zephyr_xenlib.Clib.{str_eq, str_eq_iff}
use zephyr_xenlib.Store.Tree.{Entry, Children, nil, cons, key, find}
use zephyr_xenlib.Store.Write.{append, replace, remove_last}

pub remove_last-append : (cs : Children) (e : Entry) → remove_last (append cs e) ≡ cs
unfolding remove_last append
remove_last-append nil e = refl
remove_last-append (cons x nil) e = refl
remove_last-append (cons x (cons y cs)) e = ap (cons x) (remove_last-append (cons y cs) e)

pub find-append :
    (t : List ℕ) (cs : Children) (e : Entry)
    → find t (append cs e)
      ≡ elim (find t cs) [ some x ↦ some x | none ↦ if str_eq (key e) t then some e else none ]
unfolding find append
find-append t nil e = refl
find-append t (cons x cs) e = ground (arith, find-append t cs e)

-- The child found has the name looked for.
pub key-find : (t : List ℕ) (cs : Children) (e : Entry) → find t cs ≡ some e → key e ≡ t
unfolding find
key-find t nil e h = cc
key-find t (cons x cs) e h = ground (arith, key-find t cs e, str_eq_iff (key x) t)

pub find-replace_self :
    (t : List ℕ) (cs : Children) (e e' : Entry)
    → find t cs ≡ some e
    → key e' ≡ t
    → find t (replace t e' cs) ≡ some e'
unfolding find replace
find-replace_self t nil e e' h k = cc
find-replace_self t (cons x cs) e e' h k =
    ground (arith, find-replace_self t cs e e', str_eq_iff (key x) t, str_eq_iff (key e') t)

pub find-replace_ne :
    (t u : List ℕ) (cs : Children) (e' : Entry)
    → t ≢ u
    → key e' ≡ t
    → find u (replace t e' cs) ≡ find u cs
unfolding find replace
find-replace_ne t u nil e' n k = refl
find-replace_ne t u (cons x cs) e' n k = ground (
  arith,
  find-replace_ne t u cs e' n k,
  str_eq_iff (key x) t,
  str_eq_iff (key x) u,
  str_eq_iff (key e') u,
)

-- Putting back the child that was found changes nothing.
pub replace-find :
    (t : List ℕ) (cs : Children) (e : Entry) → find t cs ≡ some e → replace t e cs ≡ cs
unfolding find replace
replace-find t nil e h = refl
replace-find t (cons x cs) e h = ground (arith, replace-find t cs e)
