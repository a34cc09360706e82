-- ===== src/Server/Watch/Counted.antt =====
-- Queueing, sending and dropping events keeps the reference counts of watches right.
use mathlib.Core.Option
use zephyr_xenlib.Prelude.{
  ℕ, ◌+◌, ◌<◌, ◌≡◌, refl, ◌∙◌, inl, inr, Option, none, some, List, [], ◌∷◌, arith, Bool-cases,
}
use zephyr_xenlib.Errno.{Result, ok, err}
use zephyr_xenlib.Store.Alloc.{k_malloc}
use zephyr_xenlib.Server.State.{Server}
use zephyr_xenlib.Server.Watch.{
  change_at, ref_get, ref_put, watch_entry_get, watch_entry_put, queue_local_watch_event,
  append_pending, queue_pending_watch_event, event,
}
use zephyr_xenlib.Server.Watch.Refs.{
  ref_at, link_at, one, count-append, Balanced, Balanced-get, Balanced-put, waiting, IsCounted,
  link-change,
}

-- A property of what a run returns, where it returns.
abbrev pub Holds {ℓ} : {A : Type ℓ} → (A → Type 0) → Option A → Type 0
Holds P none = Unit
Holds P (some a) = P a

pub Holds-weaken :
    {A : Type 0} (P Q : A → Type 0) (o : Option A) → ((a : A) → P a → Q a) → Holds P o → Holds Q o
Holds-weaken P Q none k h = tt
Holds-weaken P Q (some a) k h = k a h

pub Holds-map :
    {A B : Type 0} (P : A → Type 0) (Q : B → Type 0) (f : A → B) (o : Option A)
    → ((a : A) → P a → Q (f a))
    → Holds P o
    → Holds Q (Option.map f o)
Holds-map P Q f none k h = tt
Holds-map P Q f (some a) k h = k a h

-- The same watches are on the list.
abbrev pub SameList : Server → Server → Type 0
SameList s s' = (n : ℕ) → link_at s'.watches n ≡ link_at s.watches n

append_pending-IsCounted :
    (n : ℕ) (path : List ℕ) (s : Server)
    → 0 < ref_at s.watches n
    → IsCounted s
    → let s' = (append_pending n path s).1 in IsCounted s' × SameList s s'
unfolding append_pending watch_entry_get watch_entry_put
append_pending-IsCounted n path s h c = go s.locks refl
  where
    got : Balanced (λ m. waiting s m + one n m) (change_at ref_get s.watches n)
    got = Balanced-get (waiting s) s.watches n h c

    go :
        (ls : List (Result (Unit {0})))
        → s.locks ≡ ls
        → let s' = (append_pending n path s).1 in IsCounted s' × SameList s s'
    go [] e = rw e (
      λ m. omega (arith, got m, count-append s.pending (event path n) m),
      λ m. link-change ref_get (λ w. refl) s.watches n m,
    )
    go (ok u ∷ ls) e = rw e (
      λ m. omega (arith, got m, count-append s.pending (event path n) m),
      λ m. link-change ref_get (λ w. refl) s.watches n m,
    )
    go (err x ∷ ls) e = rw e (
      Balanced-put (waiting s) (change_at ref_get s.watches n) n got,
      λ m.
          link-change ref_put (λ w. refl) (change_at ref_get s.watches n) n m
          ∙ link-change ref_get (λ w. refl) s.watches n m,
    )

pub queue_pending-IsCounted :
    (n : ℕ) (path : List ℕ) (s : Server)
    → 0 < ref_at s.watches n
    → IsCounted s
    → let s' = (queue_pending_watch_event n path s).1 in IsCounted s' × SameList s s'
unfolding queue_pending_watch_event
queue_pending-IsCounted n path s h c = elim (Bool-cases (k_malloc s.mem).0) [
  | inr failed ↦ rw failed (c, λ m. refl)
  | inl got ↦ elim (Bool-cases (k_malloc (k_malloc s.mem).1).0) [
    | inr failed ↦ rw (got, failed) (c, λ m. refl)
    | inl got2 ↦
        rw (got, got2)
          (append_pending-IsCounted n path (record s { mem = (k_malloc (k_malloc s.mem).1).1 }) h c)
  ]
]

pub queue_local-IsCounted :
    (n : ℕ) (path : List ℕ) (s : Server)
    → 0 < ref_at s.watches n
    → IsCounted s
    → let s' = queue_local_watch_event n path s in IsCounted s' × SameList s s'
unfolding queue_local_watch_event watch_entry_get
queue_local-IsCounted n path s h c = elim (Bool-cases (k_malloc s.mem).0) [
  | inr failed ↦ rw failed (c, λ m. refl)
  | inl got ↦ rw got (
    λ m. omega (
      arith,
      Balanced-get (waiting s) s.watches n h c m,
      count-append s.local_events (event path n) m,
    ),
    λ m. link-change ref_get (λ w. refl) s.watches n m,
  )
]
