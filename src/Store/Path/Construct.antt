-- ===== src/Store/Path/Construct.antt =====
-- construct_path: what a domain's request names.
use mathlib.Core.Path.{subst}
use zephyr_xenlib.Prelude.{
  ℕ, ◌+◌, ◌^◌, ◌≤◌, ◌<◌, ◌≡◌, refl, sym, ap, ◌∙◌, inl, inr, false, List, [], ◌∷◌, ◌++◌,
  append_assoc, arith, length, length-append, ltb, if◌then◌else◌, Bool-cases,
}
use zephyr_xenlib.Errno.{ok}
use zephyr_xenlib.Clib.{bytes, tokens, pieces, non_empty}
use zephyr_xenlib.Clib.Decimal.{
  length-print_unsigned, print_unsigned, IsDigits, print_unsigned-IsDigits, print_unsigned-ne_nil,
}
use zephyr_xenlib.Store.Tree.{
  xenstore_rel_path_max, is_abs_path, is_root_path, xenstore_abs_path_max,
}
use zephyr_xenlib.Store.Path.{Mem, construct_path, validate_from, path_validate, local_prefix}
use zephyr_xenlib.Store.Path.Contains.{IsAbsolute}
use zephyr_xenlib.Store.Path.Spell.{tokens-append}

validate-digits :
    (prev : ℕ) (s r : List ℕ)
    → IsDigits s
    → 0 < length s
    → validate_from prev (s ++ b'/' ∷ r) ≡ validate_from b'/' r
unfolding validate_from
validate-digits prev [] r h p = absurd (omega arith)
validate-digits prev (c ∷ []) r h p = ground arith
validate-digits prev (c ∷ d ∷ s) r h p = ground (arith, validate-digits c (d ∷ s) r h.2)

-- A text that does not begin with a slash is accepted behind one.
validate-behind :
    (s : List ℕ) → is_abs_path s ≡ false → path_validate s ≡ ok tt → validate_from b'/' s ≡ ok tt
unfolding path_validate validate_from is_root_path
validate-behind [] a v = cc
validate-behind (c ∷ cs) a v = ground arith

pieces-digits : (s : List ℕ) → IsDigits s → pieces s ≡ s ∷ []
unfolding pieces
pieces-digits [] h = refl
pieces-digits (c ∷ cs) h = ground (arith, pieces-digits cs h.2)

tokens-digits : (s : List ℕ) → IsDigits s → 0 < length s → tokens s ≡ s ∷ []
unfolding tokens
tokens-digits s h p = rw (pieces-digits s h) (one s p)
  where
    one : (s : List ℕ) → 0 < length s → non_empty (s ∷ []) ≡ s ∷ []
    one [] p = absurd (omega arith)
    one (c ∷ cs) p = refl

-- "/local/domain/<domid>/" and a relative path
local_path-tokens :
    (domid : ℕ) (payload : List ℕ)
    → tokens (local_prefix domid ++ payload)
      ≡ bytes "local" ∷ bytes "domain" ∷ print_unsigned domid ∷ tokens payload
unfolding local_prefix bytes tokens
local_path-tokens domid payload =
    ap tokens (append_assoc (bytes "/local/domain/" ++ d) (b'/' ∷ []) payload)
    ∙ tokens-append (bytes "/local/domain/" ++ d) payload
    ∙ ap (λ x. x ++ tokens payload) front
  where
    d : List ℕ
    d = print_unsigned domid

    front : tokens (bytes "/local/domain/" ++ d) ≡ bytes "local" ∷ bytes "domain" ∷ d ∷ []
    front =
        tokens-append (bytes "/local/domain") d
        ∙ ap (λ x. bytes "local" ∷ bytes "domain" ∷ x)
            (tokens-digits d (print_unsigned-IsDigits domid) (print_unsigned-ne_nil domid))

prefix-validates :
    (domid : ℕ) (payload : List ℕ)
    → validate_from 0 (local_prefix domid ++ payload) ≡ validate_from b'/' payload
unfolding local_prefix bytes validate_from
prefix-validates domid payload =
    ap (validate_from 0)
      (append_assoc (bytes "/local/domain/" ++ print_unsigned domid) (b'/' ∷ []) payload)
    ∙ validate-digits b'/' (print_unsigned domid) payload (print_unsigned-IsDigits domid)
        (print_unsigned-ne_nil domid)

local_path-valid :
    (domid : ℕ) (payload : List ℕ)
    → is_abs_path payload ≡ false
    → path_validate payload ≡ ok tt
    → length (local_prefix domid ++ payload) < xenstore_abs_path_max
    → IsAbsolute (local_prefix domid ++ payload)
unfolding local_prefix bytes path_validate is_root_path
local_path-valid domid payload a v len =
    (refl, ground (arith, prefix-validates domid payload, validate-behind payload a v, len))

-- the components that a request of a domain stands for
abbrev pub meant : List ℕ → ℕ → List (List ℕ)
meant payload domid =
    if is_abs_path payload
    then tokens payload
    else bytes "local" ∷ bytes "domain" ∷ print_unsigned domid ∷ tokens payload

construct_ok :
    (payload : List ℕ) (domid : ℕ) (mem mem' : Mem) (path : List ℕ)
    → construct_path payload domid mem ≡ (ok path, mem')
    → (path_validate payload ≡ ok tt)
      × (path ≡ (if is_abs_path payload then payload else local_prefix domid ++ payload))
      × (is_abs_path payload ≡ false
          → length (local_prefix domid ++ payload) < xenstore_abs_path_max)
unfolding construct_path
construct_ok payload domid mem mem' path h = (ground arith, ground arith, λ r. ground arith)

-- A path that construct_path returns is absolute and valid. Its components are those of an absolute
-- payload; those of a relative one stand below /local/domain/<domid>.
pub construct_path_lem :
    (payload : List ℕ) (domid : ℕ) (mem mem' : Mem) (path : List ℕ)
    → construct_path payload domid mem ≡ (ok path, mem')
    → IsAbsolute path × (tokens path ≡ meant payload domid)
construct_path_lem payload domid mem mem' path h =
    let (v, is, fits) = construct_ok payload domid mem mem' path h in
    subst (λ x. IsAbsolute x × (tokens x ≡ meant payload domid)) (sym is)
      (elim (Bool-cases (is_abs_path payload)) [
        | inl absolute ↦ rw absolute ((absolute, v), refl)
        | inr relative ↦ rw relative (
          local_path-valid domid payload relative v (fits relative),
          local_path-tokens domid payload,
        )
      ])

length-local_path :
    (domid : ℕ) (payload : List ℕ)
    → domid < 10 ^ 5
    → length (local_prefix domid ++ payload) ≤ 20 + length payload
unfolding local_prefix bytes
length-local_path domid payload small = omega (
  arith,
  length-append (bytes "/local/domain/" ++ print_unsigned domid ++ b'/' ∷ []) payload,
  length-append (bytes "/local/domain/" ++ print_unsigned domid) (b'/' ∷ []),
  length-append (bytes "/local/domain/") (print_unsigned domid),
  length-print_unsigned domid 5 (omega arith) small,
)

relative_fits :
    (payload : List ℕ)
    → is_abs_path payload ≡ false
    → path_validate payload ≡ ok tt
    → length payload < xenstore_rel_path_max
unfolding path_validate is_root_path
relative_fits [] a v = omega arith
relative_fits (c ∷ cs) a v = ground arith

-- Whether construct_path succeeds, where memory lasts: a relative path that is valid always fits.
pub construct_path-total :
    (payload : List ℕ) (domid : ℕ)
    → domid < 10 ^ 5
    → path_validate payload ≡ ok tt
    → (path : List ℕ) × (construct_path payload domid [] ≡ (ok path, []))
unfolding construct_path
construct_path-total payload domid small v = elim (Bool-cases (is_abs_path payload)) [
  | inl absolute ↦ (payload, rw (v, absolute, construct_path))
  | inr relative ↦
      let fits : ltb xenstore_abs_path_max (length (local_prefix domid ++ payload) + 1) ≡ false =
        ground (arith, length-local_path domid payload small, relative_fits payload relative v) in
      (local_prefix domid ++ payload, rw (v, relative, fits, construct_path))
]
