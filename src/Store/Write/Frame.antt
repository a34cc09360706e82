-- ===== src/Store/Write/Frame.antt =====
-- What a write that succeeds leaves alone.
use zephyr_xenlib.Store.Write.Effect.{
  is_prefix, new_perms, missing-ok, descend-ok, key-write_walk, value-ok,
}
use zephyr_xenlib.Store.Write.Find.{find-append, find-replace_self, find-replace_ne, key-find}
use zephyr_xenlib.Store.Write.{write_walk, fresh}
use zephyr_xenlib.Store.Tree.{entry, key, find, walk, Entry}
use zephyr_xenlib.Store.Alloc.{Mem}
use zephyr_xenlib.Errno.{ok}
use zephyr_xenlib.Clib.{str_eq_ne, str_eq_iff, str_eq}
use zephyr_xenlib.Common.Perm.{PermEntry}
use zephyr_xenlib.Prelude.{
  ℕ, ◌≡◌, refl, ◌∙◌, inl, inr, Bool, true, false, Option, none, some, List, [], ◌∷◌, arith,
  Bool-cases, Option-cases,
}

module _ (d : Option (List ℕ)) (domid : ℕ) (ps : List PermEntry) where
  walk-fresh :
      (q ts : List (List ℕ)) (t : List ℕ) (qs : List PermEntry)
      → is_prefix q ts ≡ false
      → walk q (fresh t qs) ≡ none
  unfolding walk find
  walk-fresh [] ts t qs h = cc
  walk-fresh (u ∷ q) ts t qs h = refl

  -- A successful write leaves every node alone that is not on its path.
  pub write_walk-frame :
      (toks q : List (List ℕ)) (ins : Bool) (e e' : Entry) (mem mem' : Mem)
      → is_prefix q toks ≡ false
      → write_walk d domid ps toks ins e mem ≡ some (ok tt, e', mem')
      → walk q e' ≡ walk q e
  unfolding walk write_walk
  write_walk-frame toks [] ins e e' mem mem' np h = cc
  write_walk-frame [] (u ∷ q) ins e e' mem mem' np h =
      let (_, _, same, _) = value-ok d domid ps e e' mem mem' h in rw (same, walk)
  write_walk-frame (t ∷ ts) (u ∷ q) ins (entry k w p c) e' mem mem' np h =
      elim (Option-cases (find t c)) [
        | inl missing ↦
            let m = missing-ok d domid ps t ts ins (entry k w p c) e' mem mem' missing h in
            let named : key m.made ≡ t =
              (key-write_walk d domid ps ts true (fresh t (new_perms ps p)) m.made m.m m.m'
                m.went).0 in
            rw m.put (elim (Bool-cases (str_eq u t)) [
              | inl same ↦
                  let ut : u ≡ t = (str_eq_iff u t).0 same in
                  let np' : is_prefix q ts ≡ false = rw same at np in
                  let new : walk q m.made ≡ none =
                    write_walk-frame ts q true (fresh t (new_perms ps p)) m.made m.m m.m' np' m.went
                    ∙ walk-fresh q ts t (new_perms ps p) np' in
                  ground (
                    arith,
                    find-append u c m.made,
                    str_eq_iff (key m.made) u,
                    new,
                    ut,
                    missing,
                    named,
                  )
              | inr other ↦
                  ground (
                    arith,
                    find-append u c m.made,
                    str_eq_iff (key m.made) u,
                    str_eq_iff u t,
                    named,
                  )
            ])
        | inr (x, found) ↦
            let (f, below, put) =
              descend-ok d domid ps t ts ins (entry k w p c) x e' mem mem' found h in
            let named : key f ≡ t =
              (key-write_walk d domid ps ts ins x f mem mem' below).0 ∙ key-find t c x found in
            rw put (elim (Bool-cases (str_eq u t)) [
              | inl same ↦
                  let ut : u ≡ t = (str_eq_iff u t).0 same in
                  let np' : is_prefix q ts ≡ false = rw same at np in
                  let sub : walk q f ≡ walk q x =
                    write_walk-frame ts q ins x f mem mem' np' below in
                  ground (arith, ut, find-replace_self t c x f found named, found, sub)
              | inr other ↦ rw (find-replace_ne t u c f (str_eq_ne u t other) named, walk)
            ])
      ]
