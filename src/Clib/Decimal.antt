-- ===== src/Clib/Decimal.antt =====
-- strtoul(s, &endptr, 10) for a 64-bit unsigned long, and "%u" of snprintf.
use native.Mathlib.Decide.{dec_lt}
use native.Mathlib.Nat.{pow-suc}
use mathlib.Core.Path.{ap₂}
use zephyr_xenlib.Prelude.{
  ℕ, zero, suc, ◌+◌, ◌-◌, ◌*◌, ◌/◌, ◌%◌, ◌^◌, ◌≤◌, ◌<◌, ◌≡◌, refl, sym, ap, ◌∙◌, Bool, true, false,
  ◌&&◌, ◌||◌, List, [], ◌∷◌, ◌++◌, append-nil, append_assoc, arith, length, length-append, ltb, leb,
  ◌==◌, if◌then◌else◌, lt→ltb,
}
use zephyr_xenlib.Clib.Text.{IsText}

abbrev pub ulong_mod : ℕ
ulong_mod = 2 ^ 64

abbrev is_digit : ℕ → Bool
is_digit c = leb b'0' c && leb c b'9'

-- isspace in the C locale
abbrev is_space : ℕ → Bool
is_space c = c == 32 || (leb 9 c && leb c 13)

skip_space : List ℕ → List ℕ
skip_space [] = []
skip_space (c ∷ cs) = let rest = skip_space cs in if is_space c then rest else c ∷ cs

-- The value of the leading digits, their number, and what stands behind them.
unfoldable pub digits_from : ℕ → ℕ → List ℕ → ℕ × ℕ × List ℕ
digits_from acc n [] = (acc, n, [])
digits_from acc n (c ∷ cs) =
    let more = digits_from (acc * 10 + (c - b'0')) (n + 1) cs in
    if is_digit c then more else (acc, n, c ∷ cs)

pub record Strtoul : Type 0 where
  -- the value returned, ULONG_MAX out of range
  pub value : ℕ
  -- endptr moved: there was a digit
  pub converted : Bool
  -- what endptr points to
  pub rest : List ℕ
  -- errno == ERANGE
  pub out_of_range : Bool

convert : Bool → List ℕ → Strtoul
convert negative s =
    let (v, n, rest) = digits_from 0 0 s in
    record {
      value =
          if leb ulong_mod v
          then ulong_mod - 1
          else if negative
          then (ulong_mod - v) % ulong_mod
          else v;
      converted = ltb 0 n;
      rest = rest;
      out_of_range = leb ulong_mod v;
    }

signed : List ℕ → Strtoul
unfolding convert
signed [] = convert false []
signed (c ∷ cs) =
    if c == b'-'
    then convert true cs
    else if c == b'+'
    then convert false cs
    else convert false (c ∷ cs)

unfoldable pub strtoul : List ℕ → Strtoul
unfolding skip_space signed
strtoul s = signed (skip_space s)

-- "%u" with fuel; 20 digits hold every value of 64 bits.
unfoldable pub print_from : ℕ → ℕ → List ℕ
print_from zero n = []
print_from (suc f) n =
    let high = print_from f (n / 10) in
    if ltb n 10 then (b'0' + n) ∷ [] else high ++ (b'0' + n % 10) ∷ []

unfoldable pub print_unsigned : ℕ → List ℕ
print_unsigned n = print_from 20 n

digit :
    (n : ℕ) (r : List ℕ) (acc k : ℕ)
    → n < 10
    → digits_from acc k ((b'0' + n) ∷ r) ≡ digits_from (acc * 10 + n) (k + 1) r
unfolding digits_from
digit n r acc k h = ground arith

digits_from-print :
    (f n : ℕ) (r : List ℕ)
    → n < 10 ^ f
    → 0 < f
    → digits_from 0 0 (print_from f n ++ r) ≡ digits_from n (length (print_from f n)) r
unfolding print_from
digits_from-print zero n r h p = absurd (omega arith)
digits_from-print (suc zero) n r h p =
    let small : n < 10 = omega arith in
    rw (lt→ltb n 10 small) (digit n r 0 0 small ∙ ap (λ t. digits_from t 1 r) (omega arith))
digits_from-print (suc (suc f)) n r h p = elim (dec_lt n 10) [
  | yes small ↦
      rw (lt→ltb n 10 small) (digit n r 0 0 small ∙ ap (λ t. digits_from t 1 r) (omega arith))
  | no large ↦
      let test : ltb n 10 ≡ false = ground arith in
      rw test (
        ap (digits_from 0 0) (append_assoc high low r)
        ∙ digits_from-print (suc f) (n / 10) (low ++ r) (omega (arith, pow-suc 10 (suc f)))
            (omega arith)
        ∙ digit (n % 10) r (n / 10) (length high) (omega arith)
        ∙ ap₂ (λ t u. digits_from t u r) (omega arith) (sym (length-append high low ∙ one)))
]
  where
    high : List ℕ
    high = print_from (suc f) (n / 10)

    low : List ℕ
    low = (b'0' + n % 10) ∷ []

    one : length high + length low ≡ length high + 1
    one = refl

print_from-starts :
    (f n : ℕ) → 0 < f → (d : ℕ) × (rest : List ℕ) × (print_from f n ≡ (b'0' + d) ∷ rest) × (d < 10)
unfolding print_from
print_from-starts zero n p = absurd (omega arith)
print_from-starts (suc zero) n p = elim (dec_lt n 10) [
  | yes small ↦ (n, [], rw (lt→ltb n 10 small), small)
  | no large ↦ (n % 10, [], (let test : ltb n 10 ≡ false = ground arith in rw test), omega arith)
]
print_from-starts (suc (suc f)) n p = elim (dec_lt n 10) [
  | yes small ↦ (n, [], rw (lt→ltb n 10 small), small)
  | no large ↦
      let (d, rest, e, lt) = print_from-starts (suc f) (n / 10) (omega arith) in
      let test : ltb n 10 ≡ false = ground arith in
      (d, rest ++ (b'0' + n % 10) ∷ [], rw (test) (ap (λ t. t ++ (b'0' + n % 10) ∷ []) e), lt)
]

strtoul-digits :
    (d n k : ℕ) (rest s : List ℕ)
    → s ≡ (b'0' + d) ∷ rest
    → d < 10
    → n < ulong_mod
    → 0 < k
    → digits_from 0 0 s ≡ (n, k, [])
    → strtoul s ≡ record { value = n; converted = true; rest = []; out_of_range = false }
unfolding strtoul
strtoul-digits d n k rest s e hd hn hk read = ground arith

-- A value that fits an unsigned long is read back from its decimal form.
pub strtoul-print :
    (n : ℕ)
    → n < ulong_mod
    → strtoul (print_unsigned n)
      ≡ record { value = n; converted = true; rest = []; out_of_range = false }
unfolding print_unsigned
strtoul-print n h =
    let (d, rest, e, hd) = print_from-starts 20 n (omega arith) in
    let read : digits_from 0 0 (print_from 20 n) ≡ (n, length (print_from 20 n), []) =
      ap (digits_from 0 0) (sym (append-nil (print_from 20 n)))
      ∙ digits_from-print 20 n [] (omega arith) (omega arith)
      ∙ (unfold digits_from in refl) in
    let size : 0 < length (print_from 20 n) = rw e (omega arith) in
    strtoul-digits d n (length (print_from 20 n)) rest (print_from 20 n) e hd h size read

-- A text of decimal digits only.
abbrev pub IsDigits : List ℕ → Type 0
IsDigits [] = Unit
IsDigits (c ∷ cs) = (b'0' ≤ c) × (c ≤ b'9') × IsDigits cs

IsDigits-append : (s : List ℕ) (c : ℕ) → IsDigits s → b'0' ≤ c → c ≤ b'9' → IsDigits (s ++ c ∷ [])
IsDigits-append [] c h p q = (p, q, tt)
IsDigits-append (x ∷ s) c h p q = (h.0, h.1, IsDigits-append s c h.2 p q)

print_from-IsDigits : (f n : ℕ) → IsDigits (print_from f n)
unfolding print_from
print_from-IsDigits zero n = tt
print_from-IsDigits (suc f) n = elim (dec_lt n 10) [
  | yes small ↦ rw (lt→ltb n 10 small) (omega arith, omega arith, tt)
  | no large ↦
      let test : ltb n 10 ≡ false = ground arith in
      rw test (
        IsDigits-append (print_from f (n / 10)) (b'0' + n % 10) (print_from-IsDigits f (n / 10))
          (omega arith) (omega arith))
]

pub print_unsigned-IsDigits : (n : ℕ) → IsDigits (print_unsigned n)
unfolding print_unsigned
print_unsigned-IsDigits n = print_from-IsDigits 20 n

IsDigits-IsText : (s : List ℕ) → IsDigits s → IsText s
IsDigits-IsText [] h = tt
IsDigits-IsText (c ∷ cs) h = (omega (arith, h.0), IsDigits-IsText cs h.2)

-- A printed number is digits only, so it holds no NUL.
pub print_unsigned-IsText : (n : ℕ) → IsText (print_unsigned n)
print_unsigned-IsText n = IsDigits-IsText (print_unsigned n) (print_unsigned-IsDigits n)

length-print_from : (f n k : ℕ) → 0 < k → n < 10 ^ k → length (print_from f n) ≤ k
unfolding print_from
length-print_from f n zero p h = absurd (omega arith)
length-print_from zero n (suc k) p h = omega arith
length-print_from (suc f) n (suc zero) p h =
    let small : n < 10 = omega arith in rw (lt→ltb n 10 small) (omega arith)
length-print_from (suc f) n (suc (suc k)) p h = elim (dec_lt n 10) [
  | yes small ↦ rw (lt→ltb n 10 small) (omega arith)
  | no large ↦
      let test : ltb n 10 ≡ false = ground arith in
      rw test (
        rw (length-append (print_from f (n / 10)) ((b'0' + n % 10) ∷ [])) (
          omega (
            arith,
            length-print_from f (n / 10) (suc k) (omega arith) (omega (arith, pow-suc 10 (suc k))),
          )))
]

-- The number of digits is bounded by the number's size.
pub length-print_unsigned : (n k : ℕ) → 0 < k → n < 10 ^ k → length (print_unsigned n) ≤ k
unfolding print_unsigned
length-print_unsigned n k p h = length-print_from 20 n k p h

pub print_unsigned-ne_nil : (n : ℕ) → 0 < length (print_unsigned n)
unfolding print_unsigned
print_unsigned-ne_nil n =
    let (d, rest, e, hd) = print_from-starts 20 n (omega arith) in rw e (omega arith)
