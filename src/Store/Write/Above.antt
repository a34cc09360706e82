-- ===== src/Store/Write/Above.antt =====
-- A write that succeeds, seen as an update of a map from paths to values.
use zephyr_xenlib.Store.Write.Find.{find-replace_self, key-find, find-append}
use zephyr_xenlib.Errno.{ok}
use zephyr_xenlib.Store.Write.{ok, fresh, write_walk}
use zephyr_xenlib.Store.Alloc.{Mem}
use zephyr_xenlib.Clib.{str_eq, str_eq_iff}
use zephyr_xenlib.Common.Perm.{PermEntry}
use zephyr_xenlib.Store.Tree.{key, entry, find, value, walk, Entry}
use zephyr_xenlib.Store.Write.Effect.{
  new_perms, key-write_walk, descend-ok, missing-ok, write_walk-reads, is_prefix,
}
use zephyr_xenlib.Store.Write.Frame.{write_walk-frame}
use mathlib.Core.Option
use mathlib.Core.Path.{ap₂}
use zephyr_xenlib.Prelude.{
  ℕ, ◌≡◌, refl, sym, ap, ◌∙◌, inl, inr, Bool, true, false, ◌&&◌, Option, none, some, List, [], ◌∷◌,
  arith, if◌then◌else◌, Bool-cases, Option-cases,
}

-- What stands at the tokens: no node, or a node with its value.
abbrev pub value_at : Entry → List (List ℕ) → Option (Option (List ℕ))
value_at e q = Option.map value (walk q e)

-- A node on the way is made, without a value, where there is none.
abbrev pub made_at : Option (Option (List ℕ)) → Option (Option (List ℕ))
made_at none = some none
made_at (some v) = some v

abbrev pub same_path : List (List ℕ) → List (List ℕ) → Bool
same_path q p = is_prefix q p && is_prefix p q

-- The map after the write of `v` at `p`.
abbrev pub updated :
    List (List ℕ)
    → List ℕ
    → (List (List ℕ) → Option (Option (List ℕ)))
    → List (List ℕ)
    → Option (Option (List ℕ))
updated p v f q =
    if same_path q p then some (some v) else if is_prefix q p then made_at (f q) else f q

is_prefix-both : (q p : List (List ℕ)) → is_prefix q p ≡ true → is_prefix p q ≡ true → q ≡ p
is_prefix-both [] [] a b = refl
is_prefix-both [] (t ∷ p) a b = cc
is_prefix-both (u ∷ q) [] a b = cc
is_prefix-both (u ∷ q) (t ∷ p) a b =
    ap₂ (λ x xs. x ∷ xs) (ground (arith, a, str_eq_iff u t))
      (is_prefix-both q p (ground (arith, a)) (ground (arith, b)))

module _ (d : Option (List ℕ)) (domid : ℕ) (ps : List PermEntry) where
  value-write_walk :
      (t : List ℕ) (ts : List (List ℕ)) (ins : Bool) (e e' : Entry) (mem mem' : Mem)
      → write_walk d domid ps (t ∷ ts) ins e mem ≡ some (ok tt, e', mem')
      → value e' ≡ value e
  value-write_walk t ts ins (entry k w p c) e' mem mem' h = elim (Option-cases (find t c)) [
    | inl missing ↦
        ap value (missing-ok d domid ps t ts ins (entry k w p c) e' mem mem' missing h).put
    | inr (x, found) ↦
        let (f, _, put) = descend-ok d domid ps t ts ins (entry k w p c) x e' mem mem' found h in
        ap value put
  ]

  made-fresh :
      (q : List (List ℕ)) (t : List ℕ) (qs : List PermEntry)
      → made_at (value_at (fresh t qs) q) ≡ some none
  unfolding walk find
  made-fresh [] t qs = refl
  made-fresh (u ∷ q) t qs = refl

  -- The nodes above the path keep their values, and are made where they are missing.
  write_walk-above :
      (toks q : List (List ℕ)) (ins : Bool) (e e' : Entry) (mem mem' : Mem)
      → is_prefix q toks ≡ true
      → is_prefix toks q ≡ false
      → write_walk d domid ps toks ins e mem ≡ some (ok tt, e', mem')
      → value_at e' q ≡ made_at (value_at e q)
  unfolding walk
  write_walk-above [] [] ins e e' mem mem' a b h = cc
  write_walk-above (t ∷ ts) [] ins e e' mem mem' a b h =
      ap some (value-write_walk t ts ins e e' mem mem' h)
  write_walk-above [] (u ∷ q) ins e e' mem mem' a b h = cc
  write_walk-above (t ∷ ts) (u ∷ q) ins (entry k w p c) e' mem mem' a b h =
      let same : str_eq u t ≡ true = ground (arith, a) in
      let ut : u ≡ t = (str_eq_iff u t).0 same in
      let tu : str_eq t u ≡ true = (str_eq_iff t u).1 (sym ut) in
      let a' : is_prefix q ts ≡ true = ground (arith, a) in
      let b' : is_prefix ts q ≡ false = rw tu at b in
      elim (Option-cases (find t c)) [
        | inl missing ↦
            let m = missing-ok d domid ps t ts ins (entry k w p c) e' mem mem' missing h in
            let named : str_eq (key m.made) t ≡ true =
              (str_eq_iff (key m.made) t).1
                (key-write_walk d domid ps ts true (fresh t (new_perms ps p)) m.made m.m m.m'
                  m.went).0 in
            let below : value_at m.made q ≡ some none =
              write_walk-above ts q true (fresh t (new_perms ps p)) m.made m.m m.m' a' b' m.went
              ∙ made-fresh q t (new_perms ps p) in
            rw (ut, m.put, find-append t c m.made, missing, named, walk) below
        | inr (x, found) ↦
            let (f, below, put) =
              descend-ok d domid ps t ts ins (entry k w p c) x e' mem mem' found h in
            let named : key f ≡ t =
              (key-write_walk d domid ps ts ins x f mem mem' below).0 ∙ key-find t c x found in
            let sub : value_at f q ≡ made_at (value_at x q) =
              write_walk-above ts q ins x f mem mem' a' b' below in
            rw (ut, put, find-replace_self t c x f found named, found, walk) sub
      ]

-- A successful write of a value is an update of the map from paths to values: the path has the value,
-- the nodes above it are made where they are missing and keep their values, and every other node keeps
-- its value.
pub write_walk-updated :
    (v : List ℕ) (domid : ℕ) (ps : List PermEntry) (toks q : List (List ℕ)) (ins : Bool)
    (e e' : Entry) (mem mem' : Mem)
    → write_walk (some v) domid ps toks ins e mem ≡ some (ok tt, e', mem')
    → value_at e' q ≡ updated toks v (value_at e) q
write_walk-updated v domid ps toks q ins e e' mem mem' h = elim (Bool-cases (is_prefix q toks)) [
  | inr apart ↦
      rw apart (
        ap (Option.map value) (write_walk-frame (some v) domid ps toks q ins e e' mem mem' apart h))
  | inl on ↦ elim (Bool-cases (is_prefix toks q)) [
    | inr above ↦
        rw (on, above) (write_walk-above (some v) domid ps toks q ins e e' mem mem' on above h)
    | inl whole ↦
        let (n, there, holds) =
          write_walk-reads (some v) domid ps v toks ins e e' mem mem' refl h in
        let same : q ≡ toks = is_prefix-both q toks on whole in
        rw (on, whole) (ap (λ p. value_at e' p) same ∙ ap (Option.map value) there ∙ ap some holds)
  ]
]
