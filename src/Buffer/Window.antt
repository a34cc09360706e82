-- ===== src/Buffer/Window.antt =====
-- The bytes between two free-running indices of a circular buffer, as a queue.
use zephyr_xenlib.Prelude.{
  ℕ, zero, suc, ◌+◌, ◌%◌, ◌≤◌, ◌<◌, ◌≡◌, refl, sym, ap, ◌∙◌, ◌≢◌, List, [], ◌∷◌, ◌++◌, append-nil,
  append_assoc, arith, length, set, get_or, drop, length-set, get_or-set_self, get_or-set_ne,
}
use mathlib.Core.Path.{ap₂}
use zephyr_xenlib.Buffer.{u32_mod, add32, put_bytes, get_bytes}

-- What the proofs use of a ring size: it divides the range of the indices.
pub record IsRingSize (size : ℕ) : Type 0 where
  pub wraps : (c k : ℕ) → ((c + k) % u32_mod) % size ≡ (c + k) % size
  pub distinct : (c k : ℕ) → 0 < k → k < size → (c + k) % size ≢ c % size
  pub chunk : (c k : ℕ) → c % size + k < size → (c + k) % size ≡ c % size + k
  pub in_range : (c : ℕ) → c % size < size
  pub around : (c k : ℕ) → c % size + k ≡ size → (c + k) % size ≡ 0
  pub next : (c d : ℕ) → c % size ≡ d % size → (c + 1) % size ≡ (d + 1) % size

pub IsRingSize-1024 : IsRingSize 1024
IsRingSize-1024 = record {
  wraps = λ c k. omega arith;
  distinct = λ c k p q. omega arith;
  chunk = λ c k p. omega arith;
  in_range = λ c. omega arith;
  around = λ c k e. omega (arith, e);
  next = λ c d e. omega (arith, e);
}

pub IsRingSize-2048 : IsRingSize 2048
IsRingSize-2048 = record {
  wraps = λ c k. omega arith;
  distinct = λ c k p q. omega arith;
  chunk = λ c k p. omega arith;
  in_range = λ c. omega arith;
  around = λ c k e. omega (arith, e);
  next = λ c d e. omega (arith, e);
}

pub IsRingSize-8192 : IsRingSize 8192
IsRingSize-8192 = record {
  wraps = λ c k. omega arith;
  distinct = λ c k p q. omega arith;
  chunk = λ c k p. omega arith;
  in_range = λ c. omega arith;
  around = λ c k e. omega (arith, e);
  next = λ c d e. omega (arith, e);
}

module _ (size : ℕ) where
  -- the `n` bytes from index `c` on
  unfoldable pub window : List ℕ → ℕ → ℕ → List ℕ
  window buf c zero = []
  window buf c (suc n) = get_or buf (c % size) 0 ∷ window buf (add32 c 1) n

pub length-window : (size : ℕ) (buf : List ℕ) (c n : ℕ) → length (window size buf c n) ≡ n
unfolding window
length-window size buf c zero = refl
length-window size buf c (suc n) = ap suc (length-window size buf (add32 c 1) n)

pub length-put_bytes :
    (buf : List ℕ) (off : ℕ) (xs : List ℕ) → length (put_bytes buf off xs) ≡ length buf
unfolding put_bytes
length-put_bytes buf off [] = refl
length-put_bytes buf off (x ∷ xs) =
    length-put_bytes (set buf off x) (off + 1) xs ∙ length-set buf off x

pub length-get_bytes : (buf : List ℕ) (off n : ℕ) → length (get_bytes buf off n) ≡ n
unfolding get_bytes
length-get_bytes buf off zero = refl
length-get_bytes buf off (suc n) = ap suc (length-get_bytes buf (off + 1) n)

module _ {size : ℕ} (s : IsRingSize size) where
  shift : (c k : ℕ) → (add32 c 1 + k) % size ≡ (c + suc k) % size
  shift c k = sym (s.wraps (add32 c 1) k) ∙ ap (λ t. t % size) (omega arith) ∙ s.wraps c (suc k)

  -- Writing just past a window extends it by that byte.
  window-set :
      (buf : List ℕ) (x n c i : ℕ)
      → length buf ≡ size
      → n < size
      → i ≡ (c + n) % size
      → window size (set buf i x) c (suc n) ≡ window size buf c n ++ (x ∷ [])
  unfolding window
  window-set buf x zero c i hl hn e =
      let e' : i ≡ c % size = e ∙ ap (λ t. t % size) (omega arith) in
      ap (λ t. t ∷ [])
        (ap (λ t. get_or (set buf i x) t 0) (sym e')
          ∙ get_or-set_self buf i x 0 (omega (arith, s.in_range c)))
  window-set buf x (suc n) c i hl hn e =
      ap (λ t. t ∷ window size (set buf i x) (add32 c 1) (suc n))
        (get_or-set_ne buf i (c % size) x 0
          (λ p. s.distinct c (suc n) (omega arith) hn (sym e ∙ p)))
      ∙ ap (λ t. get_or buf (c % size) 0 ∷ t)
          (window-set buf x n (add32 c 1) i hl (omega arith) (e ∙ sym (shift c n)))

  -- A copy into one contiguous chunk just past a window extends it by the bytes copied.
  pub window-put_bytes :
      (xs buf : List ℕ) (n c off : ℕ)
      → length buf ≡ size
      → n + length xs ≤ size
      → off ≡ (c + n) % size
      → off + length xs ≤ size
      → window size (put_bytes buf off xs) c (n + length xs) ≡ window size buf c n ++ xs
  unfolding put_bytes
  window-put_bytes [] buf n c off hl hn e hc =
      ap (window size buf c) (omega arith) ∙ sym (append-nil (window size buf c n))
  window-put_bytes (x ∷ []) buf n c off hl hn e hc =
      ap (window size (set buf off x) c) (omega arith) ∙ window-set buf x n c off hl (omega arith) e
  window-put_bytes (x ∷ y ∷ xs) buf n c off hl hn e hc =
      ap (window size (put_bytes (set buf off x) (off + 1) (y ∷ xs)) c) (omega arith)
      ∙ window-put_bytes (y ∷ xs) (set buf off x) (suc n) c (off + 1) (length-set buf off x ∙ hl)
          (omega arith) next (omega arith)
      ∙ ap (λ t. t ++ y ∷ xs) (window-set buf x n c off hl (omega arith) e)
      ∙ append_assoc (window size buf c n) (x ∷ []) (y ∷ xs)
    where
      next : off + 1 ≡ (c + suc n) % size
      next =
          ap (λ t. t + 1) e
          ∙ sym (s.chunk (c + n) 1 (omega arith))
          ∙ ap (λ t. t % size) (omega arith)

  -- A window depends on its start only up to the size.
  pub window-mod :
      (buf : List ℕ) (c d n : ℕ) → c % size ≡ d % size → window size buf c n ≡ window size buf d n
  unfolding window
  window-mod buf c d zero e = refl
  window-mod buf c d (suc n) e =
      ap₂ (λ x xs. get_or buf x 0 ∷ xs) e
        (window-mod buf (add32 c 1) (add32 d 1) n (s.wraps c 1 ∙ s.next c d e ∙ sym (s.wraps d 1)))

  pub window-drop :
      (buf : List ℕ) (c n : ℕ) → drop 1 (window size buf c (suc n)) ≡ window size buf (add32 c 1) n
  unfolding window
  window-drop buf c n = refl

  -- A copy out of one contiguous chunk takes the front of the window.
  pub window-get_bytes :
      (buf : List ℕ) (c m n : ℕ)
      → c < u32_mod
      → c % size + m ≤ size
      → window size buf c (m + n) ≡ get_bytes buf (c % size) m ++ window size buf (add32 c m) n
  unfolding window get_bytes
  window-get_bytes buf c zero n hu h =
      let e : add32 c 0 ≡ c = omega arith in ap₂ (window size buf) (sym e) (omega arith)
  window-get_bytes buf c (suc zero) n hu h =
      let e : suc zero + n ≡ suc n = omega arith in ap (window size buf c) e
  window-get_bytes buf c (suc (suc m)) n hu h =
      let e : suc (suc m) + n ≡ suc (suc m + n) = omega arith in
      ap (window size buf c) e
      ∙ ap (λ t. get_or buf (c % size) 0 ∷ t)
          (window-get_bytes buf (add32 c 1) (suc m) n (omega arith) (omega (arith, next))
            ∙ ap₂ (λ t u. get_bytes buf t (suc m) ++ window size buf u n) next (omega arith))
    where
      next : add32 c 1 % size ≡ c % size + 1
      next = s.wraps c 1 ∙ s.chunk c 1 (omega arith)
