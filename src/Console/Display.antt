-- ===== src/Console/Display.antt =====
-- console_display_thrd: what the internal ring holds is printed in pieces that do not wrap around.
use zephyr_xenlib.Buffer.Window.{window-mod, IsRingSize-8192, window-get_bytes, window}
use zephyr_xenlib.Buffer.{add32, get_bytes}
use zephyr_xenlib.Console.Feed.{backlog, IsIntact}
use zephyr_xenlib.Console.{sub64, xen_console_buffer_sz, add64, Console}
use zephyr_xenlib.Clib.{text_of-IsText, text_of}
use zephyr_xenlib.Clib.{IsText}
use mathlib.Core.Path.{ap₂}
use zephyr_xenlib.Prelude.{
  ℕ, zero, suc, ◌+◌, ◌-◌, ◌%◌, ◌≤◌, ◌<◌, ◌≡◌, refl, ap, ◌∙◌, inl, inr, List, [], ◌++◌, arith, ltb,
  if◌then◌else◌, ltb→lt, Bool-cases,
}

-- How many characters the next piece has.
abbrev pub piece_size : Console → ℕ
piece_size c =
    let buf_pos = c.int_cons % xen_console_buffer_sz in
    let prod_buf_pos = c.int_prod % xen_console_buffer_sz in
    if ltb buf_pos prod_buf_pos then prod_buf_pos - buf_pos else xen_console_buffer_sz - buf_pos

abbrev pub piece_of : Console → List ℕ
piece_of c = get_bytes c.int_buf (c.int_cons % xen_console_buffer_sz) (piece_size c)

abbrev pub past_piece : Console → Console
past_piece c = record c { int_cons = add64 c.int_cons (piece_size c) }

-- while (int_cons < int_prod), with fuel. "%.*s" prints a piece up to its first NUL.
unfoldable pub print_pieces : ℕ → Console → List ℕ × Console
print_pieces zero c = ([], c)
print_pieces (suc fuel) c =
    let rest = print_pieces fuel (past_piece c) in
    if ltb c.int_cons c.int_prod then (text_of (piece_of c) ++ rest.0, rest.1) else ([], c)

-- One round of the thread: the number of lost characters that it warns of, what it prints, and the
-- state. Each piece has at least one character, so 8192 pieces are enough.
unfoldable pub display : Console → ℕ × List ℕ × Console
display c =
    let (printed, c') = print_pieces xen_console_buffer_sz (record c { lost_chars = 0 }) in
    (c.lost_chars, printed, c')

-- The characters are cut into pieces, and each is printed up to its first NUL.
pub data Prints : List ℕ → List ℕ → Type 0 where
  nothing : Prints [] []
  piece : (p : List ℕ) {rest out : List ℕ} → Prints rest out → Prints (p ++ rest) (text_of p ++ out)

pub Prints-text : {xs out : List ℕ} → Prints xs out → IsText xs → out ≡ xs
Prints-text nothing h = refl
Prints-text (piece p {rest} {out} ps) h =
    let (same, text) = text_of-IsText p rest h in ap₂ (λ a b. a ++ b) same (Prints-text ps text)

piece_size-le :
    (c : Console)
    → IsIntact c
    → c.int_cons < c.int_prod
    → (0 < piece_size c)
      × (piece_size c ≤ sub64 c.int_prod c.int_cons)
      × (c.int_cons % 8192 + piece_size c ≤ 8192)
piece_size-le c s more = elim (Bool-cases (ltb (c.int_cons % 8192) (c.int_prod % 8192))) [
  | inl before ↦
      rw before
        (ground (arith, before), ground (arith, before, s.room, s.prod_in), ground (arith, before))
  | inr behind ↦
      rw behind (ground arith, ground (arith, behind, s.room, s.prod_in, more), ground arith)
]

past_piece-IsIntact : (c : Console) → IsIntact c → c.int_cons < c.int_prod → IsIntact (past_piece c)
past_piece-IsIntact c s more =
    let (pos, few, _) = piece_size-le c s more in
    record {
      whole = s.whole;
      prod_in = s.prod_in;
      cons_in = omega arith;
      room = omega (arith, s.room, s.prod_in, s.cons_in, more, few);
    }

-- The piece is the front of what waits.
backlog-piece :
    (c : Console)
    → IsIntact c
    → c.int_cons < c.int_prod
    → backlog c ≡ piece_of c ++ backlog (past_piece c)
backlog-piece c s more =
    let (pos, few, chunk) = piece_size-le c s more in
    ap (window 8192 c.int_buf (c.int_cons % 8192)) (omega (arith, few, s.prod_in, s.cons_in, more))
    ∙ window-get_bytes IsRingSize-8192 c.int_buf (c.int_cons % 8192) (piece_size c) (left c)
        (omega arith) (omega (arith, chunk))
    ∙ ap₂ (λ at xs. get_bytes c.int_buf at (piece_size c) ++ xs) (omega arith)
        (window-mod IsRingSize-8192 c.int_buf (add32 (c.int_cons % 8192) (piece_size c))
          (add64 c.int_cons (piece_size c) % 8192) (left c) (omega arith))
  where
    left : Console → ℕ
    left c = sub64 (past_piece c).int_prod (past_piece c).int_cons

backlog_empty : (c : Console) → sub64 c.int_prod c.int_cons ≡ 0 → backlog c ≡ []
unfolding window
backlog_empty c e = ap (window 8192 c.int_buf (c.int_cons % 8192)) e

print_pieces_lem :
    (fuel : ℕ) (c : Console)
    → IsIntact c
    → c.int_cons ≤ c.int_prod
    → sub64 c.int_prod c.int_cons < fuel
    → let (printed, c') = print_pieces fuel c in
      Prints (backlog c) printed
      × (c'.int_cons ≡ c.int_prod)
      × (c'.int_prod ≡ c.int_prod)
      × (c'.lost_chars ≡ c.lost_chars)
unfolding print_pieces
print_pieces_lem zero c s h f = absurd (omega arith)
print_pieces_lem (suc fuel) c s h f = elim (Bool-cases (ltb c.int_cons c.int_prod)) [
  | inr done ↦ rw done (
    rw (backlog_empty c (ground (arith, done, h, s.prod_in, s.cons_in))) nothing,
    ground (arith, done, h),
    refl,
    refl,
  )
  | inl go ↦
      let more : c.int_cons < c.int_prod = ltb→lt _ _ go in
      let (pos, few, _) = piece_size-le c s more in
      let (printed, cons, prod, lost) =
        print_pieces_lem fuel (past_piece c) (past_piece-IsIntact c s more)
          (omega (arith, few, s.prod_in, s.cons_in, more, h))
          (omega (arith, few, pos, s.prod_in, s.cons_in, more, f)) in
      rw go (rw (backlog-piece c s more) (piece (piece_of c) printed), cons, prod, lost)
]

-- A round of console_display_thrd on a sound ring that holds text without a NUL, while fewer than 2^64
-- characters have come: it warns of the characters that were given up, prints all that waits, in
-- order, and leaves the ring empty and the count of lost characters 0.
pub display_text_lem :
    (c : Console)
    → IsIntact c
    → c.int_cons ≤ c.int_prod
    → IsText (backlog c)
    → let (warned, printed, c') = display c in
      (warned ≡ c.lost_chars) × (printed ≡ backlog c) × (backlog c' ≡ []) × (c'.lost_chars ≡ 0)
unfolding display
display_text_lem c s h text =
    let (printed, cons, prod, lost) = print_pieces_lem 8192 fresh intact h s.room in
    let c' : Console = (print_pieces 8192 fresh).1 in
    (refl, Prints-text printed text, backlog_empty c' (ap₂ sub64 prod cons ∙ none_left), lost)
  where
    fresh : Console
    fresh = record c { lost_chars = 0 }

    intact : IsIntact fresh
    intact = record { whole = s.whole; prod_in = s.prod_in; cons_in = s.cons_in; room = s.room }

    none_left : sub64 c.int_prod c.int_prod ≡ 0
    none_left = omega (arith, s.prod_in)
