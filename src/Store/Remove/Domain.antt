-- ===== src/Store/Remove/Domain.antt =====
-- remove_ref_entries: when a domain goes away, no permission of the tree names it any more.
use zephyr_xenlib.Prelude.{
  ℕ, ◌<◌, ◌≡◌, refl, ◌⊎◌, inl, inr, true, false, Option, none, some, List, [], ◌∷◌, arith, length,
  ◌==◌, Bool-cases,
}
use zephyr_xenlib.Common.Perm.{PermEntry}
use zephyr_xenlib.Store.Tree.{
  Entry, Children, entry, nil, cons, key, perms, child_list, find, named_perm,
}
use zephyr_xenlib.Store.WellFormed.{IsWell, AllWell}
use zephyr_xenlib.Store.Remove.{
  without_domid, owner_is, remove_refs, remove_refs_entry, remove_ref_entries,
}

-- No permission of the node, or of one below it, names the domain.
abbrev mutual
  pub IsFree : ℕ → Entry → Type 0
  IsFree domid (entry k v p c) = (named_perm p domid ≡ none) × AllFree domid c

  pub AllFree : ℕ → Children → Type 0
  AllFree domid nil = Unit
  AllFree domid (cons e cs) = IsFree domid e × AllFree domid cs

named_perm-without :
    (domid : ℕ) (ps : List PermEntry) → named_perm (without_domid domid ps) domid ≡ none
unfolding named_perm without_domid
named_perm-without domid [] = refl
named_perm-without domid (p ∷ ps) = ground (arith, named_perm-without domid ps)

-- The owner stays first.
length-without :
    (domid : ℕ) (ps : List PermEntry)
    → owner_is domid ps ≡ some false
    → 0 < length (without_domid domid ps)
unfolding owner_is without_domid
length-without domid [] h = cc
length-without domid (p ∷ ps) h = ground arith

find-cons-none :
    (t : List ℕ) (e e' : Entry) (cs cs' : Children)
    → key e' ≡ key e
    → (find t cs ≡ none → find t cs' ≡ none)
    → find t (cons e cs) ≡ none
    → find t (cons e' cs') ≡ none
unfolding find
find-cons-none t e e' cs cs' k rest h = ground arith

find-tail : (t : List ℕ) (e : Entry) (cs : Children) → find t (cons e cs) ≡ none → find t cs ≡ none
unfolding find
find-tail t e cs h = ground arith

-- What the pass over a list of children gives.
record Passed (domid : ℕ) (cs : Children) : Type 0 where
  after : Children
  ran : remove_refs domid cs ≡ some after
  well : AllWell after
  free : AllFree domid after
  names : (t : List ℕ) → find t cs ≡ none → find t after ≡ none

record PassedEntry (domid : ℕ) (e : Entry) : Type 0 where
  after : Entry
  ran : remove_refs_entry domid e ≡ some after
  well : IsWell after
  free : IsFree domid after
  named : key after ≡ key e

keep_entry :
    (domid : ℕ) (e : Entry) (cs : Children)
    → AllWell (cons e cs)
    → owner_is domid (perms e) ≡ some false
    → PassedEntry domid e
    → Passed domid cs
    → Passed domid (cons e cs)
unfolding remove_refs
keep_entry domid e cs w o x r = record {
  after = cons x.after r.after;
  ran = ground arith;
  well = (x.well, rw x.named (r.names (key e) w.1), r.well);
  free = (x.free, r.free);
  names = λ t h. find-cons-none t e x.after cs r.after x.named (r.names t) h;
}

drop_entry :
    (domid : ℕ) (e : Entry) (cs : Children)
    → owner_is domid (perms e) ≡ some true
    → Passed domid cs
    → Passed domid (cons e cs)
unfolding remove_refs
drop_entry domid e cs o r = record {
  after = r.after;
  ran = ground arith;
  well = r.well;
  free = r.free;
  names = λ t h. r.names t (find-tail t e cs h);
}

owner_is_cases :
    (domid : ℕ) (ps : List PermEntry)
    → 0 < length ps
    → (owner_is domid ps ≡ some true) ⊎ (owner_is domid ps ≡ some false)
unfolding owner_is
owner_is_cases domid [] h = absurd (omega arith)
owner_is_cases domid (p ∷ ps) h = elim (Bool-cases (p.domid == domid)) [
  | inl same ↦ inl (rw same)
  | inr other ↦ inr (rw other)
]

pass_entry :
    (domid : ℕ) (k : List ℕ) (v : Option (List ℕ)) (p : List PermEntry) (c : Children)
    → owner_is domid p ≡ some false
    → Passed domid c
    → PassedEntry domid (entry k v p c)
unfolding remove_refs
pass_entry domid k v p c o r = record {
  after = entry k v (without_domid domid p) r.after;
  ran = ground (arith, r.ran);
  well = (length-without domid p o, r.well);
  free = (named_perm-without domid p, r.free);
  named = refl;
}

-- On a well-formed list the pass is defined, and its result is well-formed and free of the domain.
passed : (domid : ℕ) (cs : Children) → AllWell cs → Passed domid cs
unfolding remove_refs
passed domid nil w = record { after = nil; ran = refl; well = tt; free = tt; names = λ t h. h }
passed domid (cons (entry k v p c) cs) w =
    let rest = passed domid cs w.2 in
    let below = passed domid c w.0.1 in
    elim (owner_is_cases domid p w.0.0) [
      | inl owned ↦ drop_entry domid (entry k v p c) cs owned rest
      | inr other ↦
          keep_entry domid (entry k v p c) cs w other (pass_entry domid k v p c other below) rest
    ]

-- When a domain goes away, remove_ref_entries runs to its end on a well-formed tree, keeps it
-- well-formed, and leaves no permission of that domain anywhere below the root.
pub remove_ref_entries_lem :
    (domid : ℕ) (root : Entry)
    → IsWell root
    → (root' : Entry) × (remove_ref_entries domid root ≡ some root')
      × IsWell root'
      × AllFree domid (child_list root')
unfolding remove_ref_entries
remove_ref_entries_lem domid (entry k v p c) w =
    let r = passed domid c w.1 in
    (entry k v p r.after, ground (arith, r.ran), (w.0, r.well), r.free)
