-- ===== src/Store/Path/Spell.antt =====
-- Paths spelled from their components, and taken apart again.
use mathlib.Core.Path.{ap₂}
use zephyr_xenlib.Prelude.{
  ℕ, ◌<◌, ◌≡◌, refl, sym, ap, ◌∙◌, inl, inr, true, false, List, [], ◌∷◌, ◌++◌, append_assoc, arith,
  length, ◌==◌, ==_iff, Bool-cases,
}
use zephyr_xenlib.Errno.{ok}
use zephyr_xenlib.Clib.{str_eq_refl, str_eq, str_eq_iff, pieces, non_empty, tokens}
use zephyr_xenlib.Store.Tree.{is_abs_path, is_root_path}
use zephyr_xenlib.Store.Write.Effect.{is_prefix}
use zephyr_xenlib.Store.Path.{validate_from, path_validate}

-- The path that spells a list of components.
abbrev pub spell : List (List ℕ) → List ℕ
spell [] = []
spell (t ∷ ts) = (b'/' ∷ t) ++ spell ts

pub spell-append : (ts us : List (List ℕ)) → spell (ts ++ us) ≡ spell ts ++ spell us
spell-append [] us = refl
spell-append (t ∷ ts) us =
    ap (λ x. (b'/' ∷ t) ++ x) (spell-append ts us)
    ∙ sym (append_assoc (b'/' ∷ t) (spell ts) (spell us))

pieces-cons : (s : List ℕ) → (p : List ℕ) × (ps : List (List ℕ)) × (pieces s ≡ p ∷ ps)
unfolding pieces
pieces-cons [] = ([], [], refl)
pieces-cons (c ∷ cs) =
    let (p, ps, e) = pieces-cons cs in
    elim (Bool-cases (c == b'/')) [
      | inl slash ↦ ([], pieces cs, rw slash)
      | inr other ↦ (c ∷ p, ps, rw (other, e))
    ]

-- The pieces spell the string, with a slash before it.
spell-pieces : (s : List ℕ) → spell (pieces s) ≡ b'/' ∷ s
unfolding pieces
spell-pieces [] = refl
spell-pieces (c ∷ cs) =
    let (p, ps, e) = pieces-cons cs in
    let ih : spell (p ∷ ps) ≡ b'/' ∷ cs = rw e at (spell-pieces cs) in
    elim (Bool-cases (c == b'/')) [
      | inl slash ↦ ground (arith, spell-pieces cs)
      | inr other ↦ rw (other, e) (ground (arith, ih))
    ]

pub pieces-append : (a b : List ℕ) → pieces (a ++ b'/' ∷ b) ≡ pieces a ++ pieces b
unfolding pieces
pieces-append [] b = refl
pieces-append (c ∷ a) b =
    let (p, ps, e) = pieces-cons a in
    elim (Bool-cases (c == b'/')) [
      | inl slash ↦ rw slash (ap (λ x. [] ∷ x) (pieces-append a b))
      | inr other ↦ rw (other, pieces-append a b, e)
    ]

abbrev pub Filled : List (List ℕ) → Type 0
Filled [] = Unit
Filled (p ∷ ps) = (0 < length p) × Filled ps

non_empty-Filled : (ps : List (List ℕ)) → Filled ps → non_empty ps ≡ ps
unfolding non_empty
non_empty-Filled [] f = refl
non_empty-Filled ([] ∷ ps) f = absurd (omega (arith, f.0))
non_empty-Filled ((c ∷ p) ∷ ps) f = ap (λ x. (c ∷ p) ∷ x) (non_empty-Filled ps f.1)

-- In what the validation accepts behind `prev`, only the first piece may be empty, and not that one
-- either where `prev` is a slash.
record Pieces (prev : ℕ) (s : List ℕ) : Type 0 where
  first : List ℕ
  others : List (List ℕ)
  are : pieces s ≡ first ∷ others
  filled : Filled others
  first_filled : prev ≡ b'/' → 0 < length first

validated : (prev : ℕ) (s : List ℕ) → validate_from prev s ≡ ok tt → Pieces prev s
unfolding validate_from pieces
validated prev [] h = record {
  first = [];
  others = [];
  are = refl;
  filled = tt;
  first_filled = λ e. ground arith;
}
validated prev (c ∷ cs) h = elim (Bool-cases (c == b'/')) [
  | inl slash ↦
      let q = validated c cs (ground arith) in
      record {
        first = [];
        others = pieces cs;
        are = rw slash;
        filled = rw q.are (q.first_filled ((==_iff c b'/').0 slash), q.filled);
        first_filled = λ e. ground arith;
      }
  | inr other ↦
      let q = validated c cs (ground arith) in
      record {
        first = c ∷ q.first;
        others = q.others;
        are = rw (other, q.are);
        filled = q.filled;
        first_filled = λ e. omega arith;
      }
]

-- A valid absolute path is spelt by its components, and has one unless it is the root.
pub record Spelt (path : List ℕ) : Type 0 where
  pub spelt : path ≡ spell (tokens path)
  pub some_token : 0 < length (tokens path)

valid_tail :
    (c : ℕ) (cs : List ℕ)
    → path_validate (c ∷ cs) ≡ ok tt
    → is_root_path (c ∷ cs) ≡ false
    → c ≡ b'/'
    → validate_from c cs ≡ ok tt
unfolding path_validate validate_from
valid_tail c cs v r slash = ground arith

non_empty-append : (a b : List (List ℕ)) → non_empty (a ++ b) ≡ non_empty a ++ non_empty b
unfolding non_empty
non_empty-append [] b = refl
non_empty-append ([] ∷ a) b = non_empty-append a b
non_empty-append ((c ∷ p) ∷ a) b = ap (λ x. (c ∷ p) ∷ x) (non_empty-append a b)

pub valid-Spelt :
    (path : List ℕ)
    → is_abs_path path ≡ true
    → path_validate path ≡ ok tt
    → is_root_path path ≡ false
    → Spelt path
unfolding is_abs_path path_validate tokens
valid-Spelt [] a v r = cc
valid-Spelt (c ∷ cs) a v r = record {
  spelt = ap (λ x. x ∷ cs) slash ∙ sym (ap spell toks ∙ spell-pieces cs);
  some_token = rw toks (rw q.are (omega arith));
}
  where
    slash : c ≡ b'/'
    slash = (==_iff c b'/').0 a

    q : Pieces c cs
    q = validated c cs (valid_tail c cs v r slash)

    all_filled : Filled (pieces cs)
    all_filled = rw q.are (q.first_filled slash, q.filled)

    toks : tokens (c ∷ cs) ≡ pieces cs
    toks = rw (a, pieces) (non_empty-Filled (pieces cs) all_filled)

pub is_prefix_refl : (p : List (List ℕ)) → is_prefix p p ≡ true
is_prefix_refl [] = refl
is_prefix_refl (t ∷ p) = rw (str_eq_refl t) (is_prefix_refl p)

pub is_prefix-append : (p q : List (List ℕ)) → is_prefix p (p ++ q) ≡ true
is_prefix-append [] q = refl
is_prefix-append (t ∷ p) q = rw (str_eq_refl t) (is_prefix-append p q)

pub is_prefix-split :
    (p q : List (List ℕ)) → is_prefix p q ≡ true → (r : List (List ℕ)) × (q ≡ p ++ r)
is_prefix-split [] q h = (q, refl)
is_prefix-split (t ∷ p) [] h = cc
is_prefix-split (t ∷ p) (u ∷ q) h = elim (Bool-cases (str_eq t u)) [
  | inl same ↦
      let (r, e) = is_prefix-split p q (rw same at h) in
      (r, ap₂ ◌∷◌ (sym ((str_eq_iff t u).0 same)) e)
  | inr other ↦ cc (rw other at h)
]

-- A text that begins with a path and goes on with a slash has the path's components first.
pub tokens-append : (p r : List ℕ) → tokens (p ++ b'/' ∷ r) ≡ tokens p ++ tokens r
unfolding tokens
tokens-append p r = rw (pieces-append p r) (non_empty-append (pieces p) (pieces r))
