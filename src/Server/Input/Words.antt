-- ===== src/Server/Input/Words.antt =====
-- The words of a message's header.
use zephyr_xenlib.Server.Input.{word_at}
use zephyr_xenlib.Prelude.{
  ℕ, zero, suc, ◌+◌, ◌<◌, ◌≡◌, refl, List, [], ◌∷◌, ◌++◌, arith, length, get_or,
}

get_or-append : (xs ys : List ℕ) (i : ℕ) → i < length xs → get_or (xs ++ ys) i 0 ≡ get_or xs i 0
get_or-append [] ys i h = absurd (omega arith)
get_or-append (x ∷ xs) ys zero h = refl
get_or-append (x ∷ xs) ys (suc i) h = get_or-append xs ys i (omega arith)

pub word_at-append :
    (xs ys : List ℕ) (off : ℕ) → off + 3 < length xs → word_at (xs ++ ys) off ≡ word_at xs off
unfolding word_at
word_at-append xs ys off h = omega (
  arith,
  get_or-append xs ys off (omega arith),
  get_or-append xs ys (off + 1) (omega arith),
  get_or-append xs ys (off + 2) (omega arith),
  get_or-append xs ys (off + 3) (omega arith),
)
