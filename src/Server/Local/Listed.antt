-- ===== src/Server/Local/Listed.antt =====
-- What xs_directory_timeout and xs_get_permissions_timeout return, against what a client is sent.
use zephyr_xenlib.Server.Api.Spec.{own_reads}
use zephyr_xenlib.Server.Watch.{lock_deadline}
use zephyr_xenlib.Store.Path.{construct_path}
use zephyr_xenlib.Store.Alloc.{Mem}
use zephyr_xenlib.Errno.{Result, ok}
use zephyr_xenlib.Server.State.{Server}
use zephyr_xenlib.Common.Perm.{perm_read, PermEntry}
use zephyr_xenlib.Server.Local.{
  xs_transaction_none, no_buffer, xenstore_local_domain_id, with_entry, construct_path, with_local,
  xs_directory_timeout, ok, Server, Entry, Children, PermEntry, names_size, copy_names, listed,
  copy_perms, owned,
}
use zephyr_xenlib.Server.Handlers.{names}
use zephyr_xenlib.Store.Tree.{
  key_to_entry, xenstore_local_domain_id, Entry, Children, nil, cons, key, child_list, perms,
}
use zephyr_xenlib.Prelude.{
  ℕ, zero, suc, ◌-◌, min, ◌≡◌, refl, sym, ap, ◌∙◌, Bool, true, false, some, List, [], ◌∷◌, ◌++◌,
  append_assoc, arith, length, take, length-append, ltb, ◌==◌, tests,
}

names_size-names : (cs : Children) → names_size cs ≡ length (names cs)
unfolding names_size names
names_size-names nil = refl
names_size-names (cons e cs) =
    omega (arith, names_size-names cs, length-append (key e) (0 ∷ names cs))

module _ {A : Type 0} where
  take_both :
      (n m : ℕ) (xs ys : List A)
      → m ≡ min (length xs) n
      → take n (xs ++ ys) ≡ take m xs ++ take (n - m) ys
  take_both n zero [] ys h = ap (λ k. take k ys) (omega arith)
  take_both n (suc m) [] ys h = ground arith
  take_both zero zero (x ∷ xs) ys h = refl
  take_both zero (suc m) (x ∷ xs) ys h = ground arith
  take_both (suc n) zero (x ∷ xs) ys h = ground arith
  take_both (suc n) (suc m) (x ∷ xs) ys h =
      ap (λ l. x ∷ l) (take_both n m xs ys (omega arith))
      ∙ ap (λ k. x ∷ (take m xs ++ take k ys)) (omega arith)

copy_names-names : (room : ℕ) (cs : Children) → copy_names room cs ≡ take room (names cs)
unfolding copy_names names
copy_names-names zero nil = refl
copy_names-names (suc r) nil = refl
copy_names-names zero (cons e cs) = refl
copy_names-names (suc r) (cons e cs) =
    let name : List ℕ = key e ++ 0 ∷ [] in
    let n : ℕ = min (length name) (suc r) in
    let room : (suc r == 0) ≡ false = grind (arith, tests) in
    rw room (
      ap (λ l. take n name ++ l) (copy_names-names (suc r - n) cs)
      ∙ sym (take_both (suc r) n name (names cs) refl)
      ∙ ap (take (suc r)) (append_assoc (key e) (0 ∷ []) (names cs)))

copy_perms_lem : (room : ℕ) (ps : List PermEntry) → copy_perms room ps ≡ (take room ps, length ps)
unfolding copy_perms
copy_perms_lem zero [] = refl
copy_perms_lem (suc r) [] = refl
copy_perms_lem zero (p ∷ ps) = rw (copy_perms_lem zero ps) (ap (λ n. ([], n)) (omega arith))
copy_perms_lem (suc r) (p ∷ ps) =
    let room : ltb 0 (suc r) ≡ true = grind (arith, tests) in
    let next : suc r - 1 ≡ r = omega arith in
    rw (room, next, copy_perms_lem r ps) (ap (λ n. (p ∷ take r ps, n)) (omega arith))

-- xs_directory_timeout of a node that is found: it returns the size of the list of names that
-- XS_DIRECTORY sends, and the buffer holds the first bytes of that list, as many as fit.
pub listed-names :
    (len : ℕ) (e : Entry) (s : Server)
    → listed len e s ≡ (ok (length (names (child_list e)), take len (names (child_list e))), s)
unfolding listed
listed-names len e s =
    rw (names_size-names (child_list e), copy_names-names len (child_list e)) refl

-- xs_get_permissions_timeout of a node that is found: it returns the number of the entries, and the
-- array holds the first of them, as many as fit.
pub owned-perms :
    (room : ℕ) (e : Entry) (s : Server)
    → owned room e s ≡ (ok (length (perms e), take room (perms e)), s)
unfolding owned
owned-perms room e s = rw (copy_perms_lem room (perms e)) refl

-- The memory after the path is made.
abbrev pub mem_of : List ℕ → Server → Mem
mem_of path s = (construct_path path xenstore_local_domain_id s.mem).1

-- The path can be made, the lock is got, and the path leads to a node.
pub record Finds (path : List ℕ) (e : Entry) (s : Server) : Type 0 where
  pub local : List ℕ
  pub made : (construct_path path xenstore_local_domain_id s.mem).0 ≡ ok local
  pub locked : (lock_deadline s.locks).0 ≡ ok tt
  pub there : (key_to_entry s.root local (mem_of path s)).0 ≡ some e

with_entry_lem :
    {A : Type 0} (next : Entry → Server → Result A × Server) (path : List ℕ) (e : Entry)
    (s : Server)
    → (lock_deadline s.locks).0 ≡ ok tt
    → (key_to_entry s.root path s.mem).0 ≡ some e
    → with_entry perm_read next path s
      ≡ some (
          next e (record s {
            mem = (key_to_entry s.root path s.mem).1;
            locks = (lock_deadline s.locks).1;
          }))
unfolding with_entry
with_entry_lem next path e s got there =
    rw (got, own_reads s.root path s.mem, there, with_entry) refl

-- xs_directory_timeout outside a transaction, with a buffer of any size or only to ask for the size,
-- where the path can be made, the lock is got and the path leads to a node: it returns the size of the
-- list of names that XS_DIRECTORY sends, the buffer holds the first bytes of that list, as many as fit,
-- and the tree is as before.
pub xs_directory_timeout-names :
    (path : List ℕ) (given : Bool) (len : ℕ) (e : Entry) (s : Server)
    → Finds path e s
    → no_buffer given len ≡ false
    → (s' : Server) × (xs_directory_timeout (some path) given len xs_transaction_none s
        ≡ some (ok (length (names (child_list e)), take len (names (child_list e))), s'))
      × (s'.root ≡ s.root)
unfolding xs_directory_timeout with_local
xs_directory_timeout-names path given len e s f fits =
    let s1 : Server = record s { mem = mem_of path s } in
    (
      record s1 {
        mem = (key_to_entry s.root f.local (mem_of path s)).1;
        locks = (lock_deadline s.locks).1;
      },
      rw (fits, f.made)
          (with_entry_lem (listed len) f.local e s1 f.locked f.there
            ∙ ap some (listed-names len e _)),
      refl,
    )
