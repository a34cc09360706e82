-- ===== src/Console/Receive.antt =====
-- The loop that reads what the guest wrote.
use zephyr_xenlib.Buffer.{sub32, add32, u32_mod}
use zephyr_xenlib.Buffer.Window.{length-window, window}
use zephyr_xenlib.Console.Feed.{
  has_feed_cb_lem, console_feed_int_ring_lem, screen_of, IsIntact, shown, Screen,
}
use zephyr_xenlib.Console.{read_from_ext_ring, console_feed_int_ring, Xencons, read_chars, Console}
use mathlib.Core.Path.{ap₂}
use zephyr_xenlib.Prelude.{
  ℕ, zero, suc, ◌+◌, ◌%◌, ◌≤◌, ◌<◌, ◌≡◌, refl, sym, ap, ◌∙◌, Bool, true, false, List, [], ◌∷◌, ◌++◌,
  append-nil, append_assoc, arith, length, get_or, ltb, ◌==◌, if◌then◌else◌,
}

-- What the guest wrote and the loop has not read.
abbrev pub guest_output : Xencons → List ℕ
guest_output i = window 2048 i.out_ring i.out_cons (sub32 i.out_prod i.out_cons)

abbrev pub shown_all : List ℕ → Screen → Screen
shown_all [] s = s
shown_all (ch ∷ cs) s = shown_all cs (shown ch s)

-- The characters reach the screen, and the callback where one is set.
abbrev pub Shown : List ℕ → Console → Console → Type 0
Shown cs c c' =
    IsIntact c'
    × (screen_of c' ≡ shown_all cs (screen_of c))
    × (c'.fed ≡ (if c.has_feed_cb then c.fed ++ cs else c.fed))
    × (c'.has_feed_cb ≡ c.has_feed_cb)

log-step :
    (has : Bool) (fed cs : List ℕ) (ch : ℕ)
    → let log : List ℕ = if has then fed ++ ch ∷ [] else fed in
      (if has then log ++ cs else log) ≡ (if has then fed ++ ch ∷ cs else fed)
log-step true fed cs ch = append_assoc fed (ch ∷ []) cs
log-step false fed cs ch = refl

nothing-Shown : (c : Console) → IsIntact c → Shown [] c c
nothing-Shown c s = (s, refl, go c.has_feed_cb, refl)
  where
    go : (has : Bool) → c.fed ≡ (if has then c.fed ++ [] else c.fed)
    go true = sym (append-nil c.fed)
    go false = refl

next-Shown :
    (ch : ℕ) (cs : List ℕ) (c c' : Console)
    → IsIntact c
    → Shown cs (console_feed_int_ring ch c) c'
    → Shown (ch ∷ cs) c c'
next-Shown ch cs c c' s (sound, screen, log, has) =
    let (_, screen1, log1) = console_feed_int_ring_lem c ch s in
    (
      sound,
      screen ∙ ap (shown_all cs) screen1,
      log
          ∙ ap₂ (λ (b : Bool) (xs : List ℕ). if b then xs ++ cs else xs) (has_feed_cb_lem c ch) log1
          ∙ log-step c.has_feed_cb c.fed cs ch,
      has ∙ has_feed_cb_lem c ch,
    )

-- The loop with as much fuel as there are characters, or more.
read_chars_lem :
    (n fuel : ℕ) (out : List ℕ) (cons prod recv : ℕ) (c : Console)
    → n ≤ fuel
    → n ≤ 2048
    → cons < u32_mod
    → prod ≡ add32 cons n
    → IsIntact c
    → let ((recv', cons'), c') = read_chars fuel out cons prod recv c in
      (recv' ≡ recv + n) × (cons' ≡ prod) × Shown (window 2048 out cons n) c c'
unfolding read_chars window
read_chars_lem zero zero out cons prod recv c h k small e s =
    (omega arith, omega (arith, e), nothing-Shown c s)
read_chars_lem zero (suc fuel) out cons prod recv c h k small e s =
    let same : (cons == prod) ≡ true = ground (arith, e, small) in
    rw same (omega arith, omega (arith, e), nothing-Shown c s)
read_chars_lem (suc n) zero out cons prod recv c h k small e s = absurd (omega arith)
read_chars_lem (suc n) (suc fuel) out cons prod recv c h k small e s =
    let other : (cons == prod) ≡ false = ground (arith, e, small, k) in
    let ch : ℕ = get_or out (cons % 2048) 0 in
    let (count, reached, rest) =
      read_chars_lem n fuel out (add32 cons 1) prod (recv + 1) (console_feed_int_ring ch c)
        (omega arith) (omega arith) (omega arith) (omega (arith, e, small))
        (console_feed_int_ring_lem c ch s).0 in
    rw other (
      omega (arith, count),
      reached,
      next-Shown ch (window 2048 out (add32 cons 1) n) c
          (read_chars fuel out (add32 cons 1) prod (recv + 1) (console_feed_int_ring ch c)).1 s
          rest,
    )

-- read_from_ext_ring, where the guest's indices have 32 bits and are at most a page of 2048 bytes
-- apart: the fuel is enough, every character that the guest wrote reaches the screen that the internal
-- ring stands for, in order, and the callback where one is set; their number is returned, and nothing
-- is left to read.
pub read_from_ext_ring_lem :
    (i : Xencons) (c : Console)
    → i.out_cons < u32_mod
    → i.out_prod < u32_mod
    → sub32 i.out_prod i.out_cons ≤ 2048
    → IsIntact c
    → let (recv, i', c') = read_from_ext_ring i c in
      (recv ≡ length (guest_output i)) × (guest_output i' ≡ []) × Shown (guest_output i) c c'
unfolding read_from_ext_ring window
read_from_ext_ring_lem i c cons_in prod_in apart s =
    let sane : ltb 2048 (sub32 i.out_prod i.out_cons) ≡ false = ground (arith, apart) in
    let (count, reached, all) =
      read_chars_lem (sub32 i.out_prod i.out_cons) 2048 i.out_ring i.out_cons i.out_prod 0 c apart
        apart cons_in (omega (arith, cons_in, prod_in)) s in
    let none_left : sub32 i.out_prod i.out_prod ≡ 0 = omega (arith, prod_in) in
    rw sane (
      count
          ∙ omega arith
          ∙ sym (length-window 2048 i.out_ring i.out_cons (sub32 i.out_prod i.out_cons)),
      ap (λ x. window 2048 i.out_ring x (sub32 i.out_prod x)) reached
          ∙ ap (window 2048 i.out_ring i.out_prod) none_left,
      all,
    )
