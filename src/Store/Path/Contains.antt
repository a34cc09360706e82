-- ===== src/Store/Path/Contains.antt =====
-- path_contains is the prefix test on the components of the two paths.
use mathlib.Core.Path.{subst}
use zephyr_xenlib.Prelude.{
  ℕ, ◌<◌, ◌≡◌, sym, ap, ◌∙◌, inl, inr, true, false, Option, none, some, List, [], ◌∷◌, ◌++◌,
  append-nil, arith, length, length-append, Bool-cases,
}
use zephyr_xenlib.Errno.{ok}
use zephyr_xenlib.Clib.{
  str_eq_refl, str_eq, str_eq_iff, strip_prefix, strip_prefix_sound, strip_prefix_complete, tokens,
}
use zephyr_xenlib.Store.Tree.{is_abs_path, is_root_path}
use zephyr_xenlib.Store.Write.Effect.{is_prefix}
use zephyr_xenlib.Store.Path.{path_validate, path_contains, begins_component}
use zephyr_xenlib.Store.Path.Spell.{
  spell, spell-append, valid-Spelt, is_prefix_refl, is_prefix-append, is_prefix-split,
  tokens-append,
}

root_tokens : (path : List ℕ) → is_root_path path ≡ true → (path ≡ b'/' ∷ []) × (tokens path ≡ [])
unfolding is_root_path tokens
root_tokens [] h = cc
root_tokens (c ∷ []) h = ground arith
root_tokens (c ∷ d ∷ cs) h = ground arith

begins-split :
    (o : Option (List ℕ)) → begins_component o ≡ true → (r : List ℕ) × (o ≡ some (b'/' ∷ r))
unfolding begins_component
begins-split none h = cc
begins-split (some []) h = cc
begins-split (some (c ∷ cs)) h = (cs, ground arith)

contains_sound : (p c : List ℕ) → path_contains p c ≡ true → is_prefix (tokens p) (tokens c) ≡ true
unfolding path_contains
contains_sound p c h = elim (Bool-cases (str_eq p c)) [
  | inl same ↦ rw (← (str_eq_iff p c).0 same) (is_prefix_refl (tokens p))
  | inr other ↦ elim (Bool-cases (is_root_path p)) [
    | inl yes_root ↦ rw (root_tokens p yes_root).1
    | inr no_root ↦
        let (r, e) = begins-split (strip_prefix p c) (rw (other, no_root) at h) in
        rw (strip_prefix_sound p c e, tokens-append p r) (is_prefix-append (tokens p) (tokens r))
  ]
]

-- A text that goes on with components of its own is contained.
contains-spell :
    (p : List ℕ) (rest : List (List ℕ))
    → is_root_path p ≡ false
    → path_contains p (p ++ spell rest) ≡ true
unfolding path_contains
contains-spell p [] no_root = rw (append-nil p, str_eq_refl p)
contains-spell p (t ∷ ts) no_root =
    ground (arith, no_root, strip_prefix_complete p (spell (t ∷ ts)))

abbrev pub IsAbsolute : List ℕ → Type 0
IsAbsolute path = (is_abs_path path ≡ true) × (path_validate path ≡ ok tt)

is_abs-length : (path : List ℕ) → is_abs_path path ≡ true → 0 < length path
unfolding is_abs_path
is_abs-length [] h = cc
is_abs-length (c ∷ cs) h = omega arith

contains_complete :
    (p c : List ℕ)
    → IsAbsolute p
    → IsAbsolute c
    → is_prefix (tokens p) (tokens c) ≡ true
    → path_contains p c ≡ true
contains_complete p c hp hc h = elim (Bool-cases (is_root_path p)) [
  | inl p_root ↦ unfold path_contains in ground (arith, p_root, is_abs-length c hc.0)
  | inr p_not ↦
      let sp = valid-Spelt p hp.0 hp.1 p_not in
      let (rest, e) = is_prefix-split (tokens p) (tokens c) h in
      elim (Bool-cases (is_root_path c)) [
        | inl c_root ↦ absurd (
            omega (
              arith,
              sp.some_token,
              length-append (tokens p) rest,
              ap length ((sym e) ∙ (root_tokens c c_root).1),
            ))
        | inr c_not ↦
            let sc = valid-Spelt c hc.0 hc.1 c_not in
            let split : c ≡ p ++ spell rest =
              sc.spelt
              ∙ ap spell e
              ∙ spell-append (tokens p) rest
              ∙ ap (λ x. x ++ spell rest) (sym sp.spelt) in
            subst (λ x. path_contains p x ≡ true) (sym split) (contains-spell p rest p_not)
      ]
]

-- On valid absolute paths path_contains says exactly that the components of the first are the
-- leading components of the second: a path contains itself, what is below it, and nothing else.
pub path_contains-components :
    (parent child : List ℕ)
    → IsAbsolute parent
    → IsAbsolute child
    → path_contains parent child ≡ is_prefix (tokens parent) (tokens child)
path_contains-components p c hp hc = elim (Bool-cases (is_prefix (tokens p) (tokens c))) [
  | inl inside ↦ contains_complete p c hp hc inside ∙ sym inside
  | inr outside ↦ elim (Bool-cases (path_contains p c)) [
    | inl found ↦ cc (contains_sound p c found)
    | inr not_found ↦ not_found ∙ sym outside
  ]
]
