-- ===== src/Server/Watch/Refs.antt =====
-- The reference counts of watches: one reference for watch_entry_list, and one for each event that
-- waits.
use zephyr_xenlib.Prelude.{
  ℕ, zero, suc, ◌+◌, ◌-◌, ◌<◌, ◌≡◌, refl, sym, ap, ◌∙◌, Bool, true, List, [], ◌∷◌, ◌++◌, arith,
  if◌then◌else◌,
}
use zephyr_xenlib.Server.State.{Server, Watch, PendingEvent}
use zephyr_xenlib.Server.Watch.{change_at, ref_get, ref_put, unlink_watch}

abbrev pub ref_at : List Watch → ℕ → ℕ
ref_at [] n = 0
ref_at (w ∷ ws) zero = w.ref
ref_at (w ∷ ws) (suc n) = ref_at ws n

abbrev pub link_at : List Watch → ℕ → ℕ
link_at [] n = 0
link_at (w ∷ ws) zero = if w.linked then 1 else 0
link_at (w ∷ ws) (suc n) = link_at ws n

abbrev pub one : ℕ → ℕ → ℕ
one zero zero = 1
one zero (suc m) = 0
one (suc n) zero = 0
one (suc n) (suc m) = one n m

-- how many of the events are for the watch at `n`
abbrev pub count : List PendingEvent → ℕ → ℕ
count [] n = 0
count (e ∷ es) n = one e.watch n + count es n

pub count-append :
    (es : List PendingEvent) (e : PendingEvent) (n : ℕ)
    → count (es ++ e ∷ []) n ≡ count es n + one e.watch n
count-append [] e n = omega arith
count-append (x ∷ es) e n = omega (arith, count-append es e n)

pub one_self : (n : ℕ) → one n n ≡ 1
one_self zero = refl
one_self (suc n) = one_self n

-- Each count is that of the list and `base`.
abbrev pub Balanced : (ℕ → ℕ) → List Watch → Type 0
Balanced base ws = (n : ℕ) → ref_at ws n ≡ link_at ws n + base n

ref-get :
    (ws : List Watch) (n m : ℕ)
    → 0 < ref_at ws n
    → ref_at (change_at ref_get ws n) m ≡ ref_at ws m + one n m
unfolding change_at
ref-get [] n m h = absurd (omega arith)
ref-get (w ∷ ws) zero zero h = refl
ref-get (w ∷ ws) zero (suc m) h = omega arith
ref-get (w ∷ ws) (suc n) zero h = omega arith
ref-get (w ∷ ws) (suc n) (suc m) h = ref-get ws n m h

ref-put : (ws : List Watch) (n m : ℕ) → ref_at (change_at ref_put ws n) m ≡ ref_at ws m - one n m
unfolding change_at
ref-put [] n m = omega arith
ref-put (w ∷ ws) zero zero = refl
ref-put (w ∷ ws) zero (suc m) = omega arith
ref-put (w ∷ ws) (suc n) zero = omega arith
ref-put (w ∷ ws) (suc n) (suc m) = ref-put ws n m

-- A change that keeps `linked` keeps the list.
pub link-change :
    (f : Watch → Watch)
    → ((w : Watch) → (f w).linked ≡ w.linked)
    → (ws : List Watch) (n m : ℕ) → link_at (change_at f ws n) m ≡ link_at ws m
unfolding change_at
link-change f k [] n m = refl
link-change f k (w ∷ ws) zero zero = ap (λ (b : Bool). if b then 1 else 0) (k w)
link-change f k (w ∷ ws) zero (suc m) = refl
link-change f k (w ∷ ws) (suc n) zero = refl
link-change f k (w ∷ ws) (suc n) (suc m) = link-change f k ws n m

ref-unlink : (ws : List Watch) (n m : ℕ) → ref_at (change_at unlink_watch ws n) m ≡ ref_at ws m
unfolding change_at
ref-unlink [] n m = refl
ref-unlink (w ∷ ws) zero zero = refl
ref-unlink (w ∷ ws) zero (suc m) = refl
ref-unlink (w ∷ ws) (suc n) zero = refl
ref-unlink (w ∷ ws) (suc n) (suc m) = ref-unlink ws n m

pub link-unlink :
    (ws : List Watch) (n m : ℕ)
    → link_at ws n ≡ 1
    → link_at ws m ≡ link_at (change_at unlink_watch ws n) m + one n m
unfolding change_at
link-unlink [] n m h = absurd (omega (arith, h))
link-unlink (w ∷ ws) zero zero h = h
link-unlink (w ∷ ws) zero (suc m) h = omega arith
link-unlink (w ∷ ws) (suc n) zero h = omega arith
link-unlink (w ∷ ws) (suc n) (suc m) h = link-unlink ws n m h

pub Balanced-get :
    (base : ℕ → ℕ) (ws : List Watch) (n : ℕ)
    → 0 < ref_at ws n
    → Balanced base ws
    → Balanced (λ m. base m + one n m) (change_at ref_get ws n)
Balanced-get base ws n h b m =
    omega (arith, ref-get ws n m h, link-change ref_get (λ w. refl) ws n m, b m)

pub Balanced-put :
    (base : ℕ → ℕ) (ws : List Watch) (n : ℕ)
    → Balanced (λ m. base m + one n m) ws
    → Balanced base (change_at ref_put ws n)
Balanced-put base ws n b m =
    omega (arith, ref-put ws n m, link-change ref_put (λ w. refl) ws n m, b m)

-- Taken off the list, and its reference given back.
pub Balanced-remove :
    (base : ℕ → ℕ) (ws : List Watch) (n : ℕ)
    → link_at ws n ≡ 1
    → Balanced base ws
    → Balanced base (change_at ref_put (change_at unlink_watch ws n) n)
Balanced-remove base ws n h b =
    Balanced-put base (change_at unlink_watch ws n) n
      (λ m. omega (arith, ref-unlink ws n m, link-unlink ws n m h, b m))

-- The counts of a server are right.
abbrev pub waiting : Server → ℕ → ℕ
waiting s n = count s.pending n + count s.local_events n

abbrev pub IsCounted : Server → Type 0
IsCounted s = Balanced (waiting s) s.watches

pub linked-held :
    (base : ℕ → ℕ) (ws : List Watch) (n : ℕ) → Balanced base ws → link_at ws n ≡ 1 → 0 < ref_at ws n
linked-held base ws n b h = omega (arith, b n, h)

one-lt : (n m : ℕ) → n < m → one n m ≡ 0
one-lt zero zero h = absurd (omega arith)
one-lt zero (suc m) h = refl
one-lt (suc n) zero h = absurd (omega arith)
one-lt (suc n) (suc m) h = one-lt n m (omega arith)

-- `ws` are the entries from the place `n` on, as far as being on the list goes.
abbrev pub Ahead : List Watch → ℕ → List Watch → Type 0
Ahead ws n now = (k : ℕ) → link_at ws k ≡ link_at now (n + k)

pub Ahead-next :
    (w : Watch) (ws : List Watch) (n : ℕ) (now : List Watch)
    → Ahead (w ∷ ws) n now
    → Ahead ws (n + 1) now
Ahead-next w ws n now a k = a (suc k) ∙ ap (link_at now) (omega arith)

pub Ahead-unlink :
    (ws : List Watch) (n : ℕ) (now : List Watch)
    → link_at now n ≡ 1
    → Ahead ws (n + 1) now
    → Ahead ws (n + 1) (change_at ref_put (change_at unlink_watch now n) n)
Ahead-unlink ws n now h a k =
    let later : one n (n + 1 + k) ≡ 0 = one-lt n (n + 1 + k) (omega arith) in
    omega (
      arith,
      a k,
      later,
      link-change ref_put (λ w. refl) (change_at unlink_watch now n) n (n + 1 + k),
      link-unlink now n (n + 1 + k) h,
    )

pub Ahead-here :
    (w : Watch) (ws : List Watch) (n : ℕ) (now : List Watch)
    → Ahead (w ∷ ws) n now
    → w.linked ≡ true
    → link_at now n ≡ 1
Ahead-here w ws n now a l =
    ap (link_at now) (omega arith) ∙ sym (a 0) ∙ ap (λ (b : Bool). if b then 1 else 0) l
