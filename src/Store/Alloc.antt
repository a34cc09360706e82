-- ===== src/Store/Alloc.antt =====
-- k_malloc, a service of the kernel: a list of answers, one for each call to come. Past the end of
-- the list every call succeeds. Freeing does not change later answers.
use zephyr_xenlib.Prelude.{ℕ, zero, suc, ◌≡◌, refl, Bool, true, false, List, [], ◌∷◌}

abbrev pub Mem : Type 0
Mem = List Bool

-- One call: whether it returned memory.
abbrev pub k_malloc : Mem → Bool × Mem
k_malloc [] = (true, [])
k_malloc (b ∷ m) = (b, m)

-- A loop of `n` calls that stops at the first failure.
unfoldable pub k_malloc_each : ℕ → Mem → Bool × Mem
k_malloc_each zero m = (true, m)
k_malloc_each (suc n) m =
    let (b, m') = k_malloc m in elim b [ true ↦ k_malloc_each n m' | false ↦ (false, m') ]

-- With memory left, no call fails.
pub k_malloc_each-plenty : (n : ℕ) → k_malloc_each n [] ≡ (true, [])
unfolding k_malloc_each
k_malloc_each-plenty zero = refl
k_malloc_each-plenty (suc n) = k_malloc_each-plenty n
