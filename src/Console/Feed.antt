-- ===== src/Console/Feed.antt =====
-- The internal ring as a bounded list: what the guest wrote last, and a count of what was given up.
use zephyr_xenlib.Buffer.{add32, put_bytes}
use zephyr_xenlib.Console.{
  call_back, console_feed_int_ring, store_char, sub64, xen_console_buffer_sz, u64_mod, add64,
  Console,
}
use zephyr_xenlib.Buffer.Window.{
  length-window, window-drop, window-mod, IsRingSize-8192, window-put_bytes, window,
}
use mathlib.Core.Path.{ap₂}
use zephyr_xenlib.Prelude.{
  ℕ, ◌+◌, ◌%◌, ◌<◌, ◌≡◌, refl, sym, ap, ◌∙◌, inl, inr, Bool, true, false, List, [], ◌∷◌, ◌++◌,
  arith, length, set, drop, length-set, ◌==◌, if◌then◌else◌, Bool-cases,
}

-- What waits to be displayed.
abbrev pub backlog : Console → List ℕ
backlog c = window 8192 c.int_buf (c.int_cons % xen_console_buffer_sz) (sub64 c.int_prod c.int_cons)

-- The ring has its buffer, indices of 64 bits, and at least one free place.
pub record IsIntact (c : Console) : Type 0 where
  pub whole : length c.int_buf ≡ 8192
  pub prod_in : c.int_prod < u64_mod
  pub cons_in : c.int_cons < u64_mod
  pub room : sub64 c.int_prod c.int_cons < 8192

-- What a console promises: the last 8191 characters, and how many were given up.
pub record Screen : Type 0 where
  pub kept : List ℕ
  pub lost : ℕ

abbrev pub screen_of : Console → Screen
screen_of c = record { kept = backlog c; lost = c.lost_chars }

abbrev pub shown : ℕ → Screen → Screen
shown ch s =
    if length s.kept == 8191
    then record { kept = drop 1 (s.kept ++ ch ∷ []); lost = add64 s.lost 1 }
    else record { kept = s.kept ++ ch ∷ []; lost = s.lost }

abbrev pub got_by_callback : ℕ → Console → List ℕ
got_by_callback ch c = if c.has_feed_cb then c.fed ++ ch ∷ [] else c.fed

window-store :
    (c : Console) (ch : ℕ)
    → IsIntact c
    → window 8192
        (set c.int_buf (c.int_prod % 8192) ch)
        (c.int_cons % 8192)
        (sub64 c.int_prod c.int_cons + 1)
      ≡ backlog c ++ ch ∷ []
unfolding put_bytes
window-store c ch s =
    window-put_bytes IsRingSize-8192 (ch ∷ []) c.int_buf (sub64 c.int_prod c.int_cons)
      (c.int_cons % 8192) (c.int_prod % 8192) s.whole (omega (arith, s.room))
      (omega (arith, s.prod_in, s.cons_in)) (omega arith)

-- A store at the producer index, and that index.
abbrev stored : ℕ → Console → List ℕ
stored ch c = set c.int_buf (c.int_prod % 8192) ch

-- Storing a character into a full ring, and into one with room for it.
store_char-full :
    (c : Console) (ch : ℕ)
    → IsIntact c
    → sub64 c.int_prod c.int_cons ≡ 8191
    → let c' = store_char ch c in
      IsIntact c'
      × (backlog c' ≡ drop 1 (backlog c ++ ch ∷ []))
      × (c'.lost_chars ≡ add64 c.lost_chars 1)
store_char-full c ch s full =
    let met : (add64 c.int_prod 1 % 8192 == c.int_cons % 8192) ≡ true =
      ground (arith, full, s.prod_in, s.cons_in) in
    rw met (
      record {
        whole = length-set c.int_buf (c.int_prod % 8192) ch ∙ s.whole;
        prod_in = omega arith;
        cons_in = omega arith;
        room = omega (arith, same);
      },
      ap (window 8192 (stored ch c) (add64 c.int_cons 1 % 8192)) same
          ∙ window-mod IsRingSize-8192 (stored ch c) (add64 c.int_cons 1 % 8192)
              (add32 (c.int_cons % 8192) 1) 8191 (omega arith)
          ∙ sym (window-drop IsRingSize-8192 (stored ch c) (c.int_cons % 8192) 8191)
          ∙ ap (λ n. drop 1 (window 8192 (stored ch c) (c.int_cons % 8192) n)) (omega (arith, full))
          ∙ ap (drop 1) (window-store c ch s),
      refl,
    )
  where
    same : sub64 (add64 c.int_prod 1) (add64 c.int_cons 1) ≡ 8191
    same = omega (arith, full, s.prod_in, s.cons_in)

store_char-room :
    (c : Console) (ch : ℕ)
    → IsIntact c
    → sub64 c.int_prod c.int_cons < 8191
    → let c' = store_char ch c in
      IsIntact c' × (backlog c' ≡ backlog c ++ ch ∷ []) × (c'.lost_chars ≡ c.lost_chars)
store_char-room c ch s few =
    let apart : (add64 c.int_prod 1 % 8192 == c.int_cons % 8192) ≡ false =
      ground (arith, few, s.prod_in, s.cons_in) in
    rw apart (
      record {
        whole = length-set c.int_buf (c.int_prod % 8192) ch ∙ s.whole;
        prod_in = omega arith;
        cons_in = s.cons_in;
        room = omega (arith, more, few);
      },
      ap (window 8192 (stored ch c) (c.int_cons % 8192)) more ∙ window-store c ch s,
      refl,
    )
  where
    more : sub64 (add64 c.int_prod 1) c.int_cons ≡ sub64 c.int_prod c.int_cons + 1
    more = omega (arith, few, s.prod_in, s.cons_in)

abbrev Shows : ℕ → Console → Console → Type 0
Shows ch c c' = IsIntact c' × (screen_of c' ≡ shown ch (screen_of c))

store_char-Shows : (c : Console) (ch : ℕ) → IsIntact c → Shows ch c (store_char ch c)
store_char-Shows c ch s = elim (Bool-cases (sub64 c.int_prod c.int_cons == 8191)) [
  | inl full ↦
      let (sound, kept, lost) = store_char-full c ch s (ground (arith, full)) in
      let test : (length (backlog c) == 8191) ≡ true = ground (arith, size, full) in
      (sound, ap₂ screen kept lost ∙ rw test refl)
  | inr room ↦
      let (sound, kept, lost) = store_char-room c ch s (ground (arith, room, s.room)) in
      let test : (length (backlog c) == 8191) ≡ false = ground (arith, size, room) in
      (sound, ap₂ screen kept lost ∙ rw test refl)
]
  where
    screen : List ℕ → ℕ → Screen
    screen xs k = record { kept = xs; lost = k }

    size : length (backlog c) ≡ sub64 c.int_prod c.int_cons
    size = length-window 8192 c.int_buf (c.int_cons % 8192) (sub64 c.int_prod c.int_cons)

-- The callback is called whether a character is given up or not.
stored_fed : (c : Console) (ch : ℕ) → (call_back ch (store_char ch c)).fed ≡ got_by_callback ch c
stored_fed c ch = go (add64 c.int_prod 1 % 8192 == c.int_cons % 8192)
  where
    c1 : Console
    c1 = record c { int_buf = stored ch c; int_prod = add64 c.int_prod 1 }

    pick :
        (c2 : Console) (has : Bool)
        → (if has then record c2 { fed = c2.fed ++ ch ∷ [] } else c2).fed
          ≡ (if has then c2.fed ++ ch ∷ [] else c2.fed)
    pick c2 true = refl
    pick c2 false = refl

    lossy : Console
    lossy = record c1 { lost_chars = add64 c.lost_chars 1; int_cons = add64 c.int_cons 1 }

    go :
        (full : Bool)
        → let c2 : Console = if full then lossy else c1 in
          (if c2.has_feed_cb then record c2 { fed = c2.fed ++ ch ∷ [] } else c2).fed
          ≡ (if c.has_feed_cb then c.fed ++ ch ∷ [] else c.fed)
    go true = pick lossy c.has_feed_cb
    go false = pick c1 c.has_feed_cb

called : (c c1 : Console) (ch : ℕ) → Shows ch c c1 → Shows ch c (call_back ch c1)
called c c1 ch (s, e) = go c1.has_feed_cb
  where
    go : (has : Bool) → Shows ch c (if has then record c1 { fed = c1.fed ++ ch ∷ [] } else c1)
    go false = (s, e)
    go true =
        (record { whole = s.whole; prod_in = s.prod_in; cons_in = s.cons_in; room = s.room }, e)

-- console_feed_int_ring on a sound ring shows the character on the screen that the ring stands for: it
-- comes behind what waits, and where 8191 characters wait the oldest is given up and counted. The ring
-- stays sound, and the callback, where one is set, gets the character.
pub console_feed_int_ring_lem :
    (c : Console) (ch : ℕ)
    → IsIntact c
    → let c' = console_feed_int_ring ch c in
      IsIntact c' × (screen_of c' ≡ shown ch (screen_of c)) × (c'.fed ≡ got_by_callback ch c)
unfolding console_feed_int_ring
console_feed_int_ring_lem c ch s =
    let (sound, screen) = called c (store_char ch c) ch (store_char-Shows c ch s) in
    (sound, screen, stored_fed c ch)

pub has_feed_cb_lem :
    (c : Console) (ch : ℕ) → (console_feed_int_ring ch c).has_feed_cb ≡ c.has_feed_cb
unfolding console_feed_int_ring
has_feed_cb_lem c ch = go (add64 c.int_prod 1 % 8192 == c.int_cons % 8192)
  where
    c1 : Console
    c1 = record c { int_buf = stored ch c; int_prod = add64 c.int_prod 1 }

    lossy : Console
    lossy = record c1 { lost_chars = add64 c.lost_chars 1; int_cons = add64 c.int_cons 1 }

    pick :
        (c2 : Console) (has : Bool)
        → (if has then record c2 { fed = c2.fed ++ ch ∷ [] } else c2).has_feed_cb ≡ c2.has_feed_cb
    pick c2 true = refl
    pick c2 false = refl

    go :
        (full : Bool)
        → let c2 : Console = if full then lossy else c1 in
          (if c2.has_feed_cb then record c2 { fed = c2.fed ++ ch ∷ [] } else c2).has_feed_cb
          ≡ c.has_feed_cb
    go true = pick lossy c.has_feed_cb
    go false = pick c1 c.has_feed_cb
