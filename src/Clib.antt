-- ===== src/Clib.antt =====
-- The C library functions on strings that the sources call. A C string is the list of its bytes
-- before the terminating NUL, so strlen is `length` and a string's storage size is one more.
pub mod Decimal
mod Text
pub use Text.{IsText}
use Prim.Native.Char.{code}
use Prim.Native.String.{String}
use mathlib.Core.Option
use mathlib.Core.Bool.{false≢true}
use zephyr_xenlib.Prelude.{
  ℕ, zero, suc, ◌+◌, ◌-◌, ◌*◌, ◌/◌, ◌%◌, ◌^◌, ◌≤◌, ◌<◌, min, max, ◌≡◌, refl, sym, ap, ◌∙◌, ◌≢◌, ◌↔◌,
  ◌⊎◌, inl, inr, Bool, true, false, not, ◌&&◌, ◌||◌, Option, none, some, List, [], ◌∷◌, ◌++◌, map,
  append-nil, append_assoc, arith, ℕ_discrete, length, set, get_or, take, drop, replicate,
  length-append, length-set, get_or-set_self, get_or-set_ne, take-append-drop, length-take,
  length-drop, length-replicate, take-append, drop-append, ltb, leb, ◌==◌, if◌then◌else◌, ltb→lt,
  lt→ltb, leb→le, ==_iff, tests, Bool-cases, Option-cases, map-eq-some,
}

-- strcmp(a, b) == 0
unfoldable pub str_eq : List ℕ → List ℕ → Bool
str_eq [] [] = true
str_eq [] (y ∷ ys) = false
str_eq (x ∷ xs) [] = false
str_eq (x ∷ xs) (y ∷ ys) = x == y && str_eq xs ys

pub str_eq_iff : (a b : List ℕ) → (str_eq a b ≡ true) ↔ (a ≡ b)
unfolding str_eq
str_eq_iff [] [] = (λ _. refl, λ _. refl)
str_eq_iff [] (y ∷ ys) = (λ h. cc, λ h. cc)
str_eq_iff (x ∷ xs) [] = (λ h. cc, λ h. cc)
str_eq_iff (x ∷ xs) (y ∷ ys) =
    (λ h. ground (arith, str_eq_iff xs ys), λ h. ground (arith, str_eq_iff xs ys))

pub str_eq_refl : (a : List ℕ) → str_eq a a ≡ true
str_eq_refl a = (str_eq_iff a a).1 refl

pub str_eq_ne : (a b : List ℕ) → str_eq a b ≡ false → b ≢ a
str_eq_ne a b h e = false≢true (sym h ∙ (str_eq_iff a b).1 (sym e))

-- strncmp(parent, s, strlen(parent)) == 0, and the rest of `s` behind it
unfoldable pub strip_prefix : List ℕ → List ℕ → Option (List ℕ)
strip_prefix [] s = some s
strip_prefix (x ∷ xs) [] = none
strip_prefix (x ∷ xs) (y ∷ ys) = elim (x == y) [ true ↦ strip_prefix xs ys | false ↦ none ]

pub strip_prefix_sound : (p s : List ℕ) {r : List ℕ} → strip_prefix p s ≡ some r → s ≡ p ++ r
unfolding strip_prefix
strip_prefix_sound [] s h = ground arith
strip_prefix_sound (x ∷ xs) [] h = cc
strip_prefix_sound (x ∷ xs) (y ∷ ys) {r} h = ground (arith, strip_prefix_sound xs ys {r = r})

pub strip_prefix_complete : (p r : List ℕ) → strip_prefix p (p ++ r) ≡ some r
unfolding strip_prefix
strip_prefix_complete [] r = refl
strip_prefix_complete (x ∷ xs) r = ground (arith, strip_prefix_complete xs r)

-- Bytes up to the first NUL, and what stands behind that NUL; `none` where there is no NUL.
unfoldable pub cut : List ℕ → Option (List ℕ × List ℕ)
cut [] = none
cut (zero ∷ xs) = some ([], xs)
cut (suc c ∷ xs) = Option.map (λ (p : List ℕ × List ℕ). (suc c ∷ p.0, p.1)) (cut xs)

pub cut-append : (s r : List ℕ) → IsText s → cut (s ++ 0 ∷ r) ≡ some (s, r)
unfolding cut
cut-append [] r h = refl
cut-append (zero ∷ s) r h = absurd (omega (arith, h.0))
cut-append (suc c ∷ s) r h = rw (cut-append s r h.1)

-- The bytes before the first NUL, or all of them.
unfoldable pub text_of : List ℕ → List ℕ
text_of [] = []
text_of (zero ∷ cs) = []
text_of (suc c ∷ cs) = suc c ∷ text_of cs

pub text_of-IsText : (s r : List ℕ) → IsText (s ++ r) → (text_of s ≡ s) × IsText r
unfolding text_of
text_of-IsText [] r h = (refl, h)
text_of-IsText (zero ∷ s) r h = absurd (omega (arith, h.0))
text_of-IsText (suc c ∷ s) r h =
    let (same, rest) = text_of-IsText s r h.1 in (ap (λ xs. suc c ∷ xs) same, rest)

-- The pieces of a path between its slashes, empty ones too.
abbrev push : ℕ → List (List ℕ) → List (List ℕ)
push c [] = (c ∷ []) ∷ []
push c (p ∷ ps) = (c ∷ p) ∷ ps

unfoldable pub pieces : List ℕ → List (List ℕ)
pieces [] = [] ∷ []
pieces (c ∷ cs) = let ps = pieces cs in if c == b'/' then [] ∷ ps else push c ps

unfoldable pub non_empty : List (List ℕ) → List (List ℕ)
non_empty [] = []
non_empty ([] ∷ ps) = non_empty ps
non_empty ((c ∷ p) ∷ ps) = (c ∷ p) ∷ non_empty ps

-- What a loop of strtok_r(path, "/", …) returns in turn: the non-empty pieces.
unfoldable pub tokens : List ℕ → List (List ℕ)
unfolding pieces non_empty
tokens path = non_empty (pieces path)

tokens_runs :
    tokens (b'/' ∷ b'a' ∷ b'b' ∷ b'/' ∷ b'/' ∷ b'c' ∷ []) ≡ (b'a' ∷ b'b' ∷ []) ∷ (b'c' ∷ []) ∷ []
unfolding tokens
tokens_runs = refl

-- A buffer of NUL-terminated strings, as a loop of strnlen over it sees it: the strings in turn, and
-- at the end nothing (`done`) or bytes with no NUL behind them (`unterminated`).
pub data Strings : Type 0 where
  done unterminated : Strings
  string : List ℕ → Strings → Strings

abbrev push_byte : ℕ → Strings → Strings
push_byte c done = unterminated
push_byte c unterminated = unterminated
push_byte c (string s rest) = string (c ∷ s) rest

unfoldable pub strings : List ℕ → Strings
strings [] = done
strings (zero ∷ cs) = string [] (strings cs)
strings (suc c ∷ cs) = push_byte (suc c) (strings cs)

pub strings-append : (s r : List ℕ) → IsText s → strings (s ++ 0 ∷ r) ≡ string s (strings r)
unfolding strings
strings-append [] r h = refl
strings-append (zero ∷ s) r h = absurd (omega (arith, h.0))
strings-append (suc c ∷ s) r h = rw (strings-append s r h.1)

-- strncmp(a, b, n) == 0
unfoldable pub strncmp_eq : List ℕ → List ℕ → ℕ → Bool
strncmp_eq a b zero = true
strncmp_eq [] [] (suc n) = true
strncmp_eq [] (y ∷ b) (suc n) = false
strncmp_eq (x ∷ a) [] (suc n) = false
strncmp_eq (x ∷ a) (y ∷ b) (suc n) = x == y && strncmp_eq a b n

-- The bytes of an ASCII literal of the source.
unfoldable pub bytes : String → List ℕ
bytes String.[] = []
bytes (String.◌∷◌ c s) = code c ∷ bytes s
