-- ===== src/Buffer/Wrapped.antt =====
-- Copies out of and into a circular buffer that go on at its start.
use zephyr_xenlib.Buffer.{add32, u32_mod, get_bytes, put_bytes}
use mathlib.Core.Path.{ap₂}
use zephyr_xenlib.Prelude.{
  ℕ, zero, suc, ◌+◌, ◌-◌, ◌%◌, ◌≤◌, ◌<◌, min, ◌≡◌, refl, sym, ap, ◌∙◌, List, [], ◌∷◌, ◌++◌,
  append-nil, append_assoc, arith, length, take, drop, length-append, take-append-drop, length-take,
  length-drop,
}
use zephyr_xenlib.Buffer.Window.{
  length-get_bytes, length-put_bytes, IsRingSize, window, window-get_bytes, window-put_bytes,
}

-- Two copies: up to the end of the buffer, and the rest from its start.
abbrev pub get_wrapped : ℕ → List ℕ → ℕ → ℕ → List ℕ
get_wrapped size buf idx n =
    let chunk = min (size - idx) n in get_bytes buf idx chunk ++ get_bytes buf 0 (n - chunk)

abbrev pub put_wrapped : ℕ → List ℕ → ℕ → List ℕ → List ℕ
put_wrapped size buf idx xs =
    let chunk = min (size - idx) (length xs) in
    put_bytes (put_bytes buf idx (take chunk xs)) 0 (drop chunk xs)

pub length-put_wrapped :
    (size : ℕ) (buf : List ℕ) (idx : ℕ) (xs : List ℕ)
    → length (put_wrapped size buf idx xs) ≡ length buf
length-put_wrapped size buf idx xs =
    let chunk : ℕ = min (size - idx) (length xs) in
    length-put_bytes (put_bytes buf idx (take chunk xs)) 0 (drop chunk xs)
    ∙ length-put_bytes buf idx (take chunk xs)

pub length-get_wrapped :
    (size : ℕ) (buf : List ℕ) (idx n : ℕ) → length (get_wrapped size buf idx n) ≡ n
length-get_wrapped size buf idx n =
    let chunk : ℕ = min (size - idx) n in
    omega (
      arith,
      length-append (get_bytes buf idx chunk) (get_bytes buf 0 (n - chunk)),
      length-get_bytes buf idx chunk,
      length-get_bytes buf 0 (n - chunk),
    )

module _ {size : ℕ} (s : IsRingSize size) where
  -- The end of the buffer is its start.
  at_start : (c k : ℕ) → c % size + k ≡ size → add32 c k % size ≡ 0
  at_start c k e = s.wraps c k ∙ s.around c k e

  -- Nothing, or a copy from the start of the buffer.
  window-get_start :
      (buf : List ℕ) (c m rest : ℕ)
      → c < u32_mod
      → m ≤ size
      → (0 < m → c % size ≡ 0)
      → window size buf c (m + rest) ≡ get_bytes buf 0 m ++ window size buf (add32 c m) rest
  unfolding get_bytes
  window-get_start buf c zero rest small h start =
      ap₂ (window size buf) (omega (arith, small)) (omega arith)
  window-get_start buf c (suc m) rest small h start =
      let here : c % size ≡ 0 = start (omega arith) in
      window-get_bytes s buf c (suc m) rest small (omega (arith, here, h))
      ∙ ap (λ at. get_bytes buf at (suc m) ++ window size buf (add32 c (suc m)) rest) here

  pub window-get_wrapped :
      (buf : List ℕ) (c n rest : ℕ)
      → c < u32_mod
      → n ≤ size
      → window size buf c (n + rest)
        ≡ get_wrapped size buf (c % size) n ++ window size buf (add32 c n) rest
  window-get_wrapped buf c n rest small h =
      ap (window size buf c) (omega arith)
      ∙ window-get_bytes s buf c chunk (m + rest) small (omega (arith, s.in_range c))
      ∙ ap (λ x. get_bytes buf (c % size) chunk ++ x)
          (window-get_start buf (add32 c chunk) m rest (omega arith) (omega (arith, h))
              (λ more. at_start c chunk (omega (arith, more, s.in_range c)))
            ∙ ap (λ at. get_bytes buf 0 m ++ window size buf at rest) (omega arith))
      ∙ sym (
          append_assoc (get_bytes buf (c % size) chunk) (get_bytes buf 0 m)
            (window size buf (add32 c n) rest))
    where
      chunk : ℕ
      chunk = min (size - c % size) n

      m : ℕ
      m = n - chunk

  -- Nothing, or a copy to the start of the buffer.
  window-put_start :
      (xs buf : List ℕ) (n c : ℕ)
      → length buf ≡ size
      → n + length xs ≤ size
      → (0 < length xs → (c + n) % size ≡ 0)
      → window size (put_bytes buf 0 xs) c (n + length xs) ≡ window size buf c n ++ xs
  unfolding put_bytes
  window-put_start [] buf n c whole h start =
      ap (window size buf c) (omega arith) ∙ sym (append-nil (window size buf c n))
  window-put_start (x ∷ xs) buf n c whole h start =
      window-put_bytes s (x ∷ xs) buf n c 0 whole h (sym (start (omega arith))) (omega (arith, h))

  pub window-put_wrapped :
      (xs buf : List ℕ) (n c : ℕ)
      → length buf ≡ size
      → n + length xs ≤ size
      → window size (put_wrapped size buf ((c + n) % size) xs) c (n + length xs)
        ≡ window size buf c n ++ xs
  window-put_wrapped xs buf n c whole h =
      ap (window size (put_bytes first 0 (drop chunk xs)) c) (omega (arith, front, back))
      ∙ window-put_start (drop chunk xs) first (n + chunk) c
          (length-put_bytes buf ((c + n) % size) (take chunk xs) ∙ whole)
          (omega (arith, front, back, h))
          (λ more.
            ap (λ t. t % size) (omega arith)
            ∙ s.around (c + n) chunk (omega (arith, more, back, s.in_range (c + n))))
      ∙ ap (λ x. x ++ drop chunk xs)
          (ap (window size first c) (omega (arith, front))
            ∙ window-put_bytes s (take chunk xs) buf n c ((c + n) % size) whole
                (omega (arith, front, h)) refl (omega (arith, front, s.in_range (c + n))))
      ∙ append_assoc (window size buf c n) (take chunk xs) (drop chunk xs)
      ∙ ap (λ x. window size buf c n ++ x) (take-append-drop chunk xs)
    where
      chunk : ℕ
      chunk = min (size - (c + n) % size) (length xs)

      first : List ℕ
      first = put_bytes buf ((c + n) % size) (take chunk xs)

      front : length (take chunk xs) ≡ chunk
      front = omega (arith, length-take chunk xs)

      back : length (drop chunk xs) ≡ length xs - chunk
      back = length-drop chunk xs
