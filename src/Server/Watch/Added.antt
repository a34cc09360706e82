-- ===== src/Server/Watch/Added.antt =====
-- Adding a watch, changing its form, and finding one, as far as the reference counts go.
use zephyr_xenlib.Prelude.{
  ℕ, zero, suc, ◌+◌, ◌≡◌, refl, inl, inr, true, Option, some, List, [], ◌∷◌, ◌++◌, arith, length,
  Bool-cases,
}
use zephyr_xenlib.Server.State.{Watch}
use zephyr_xenlib.Server.Watch.{change_at, key_to_watcher, key_to_watcher_from, key_matches}
use zephyr_xenlib.Server.Watch.Refs.{ref_at, link_at, one, Balanced, link-change}

-- A search finds a watch that is on the list.
linked_from :
    (key token : List ℕ) (domain : Option ℕ) (ws : List Watch) (k n : ℕ)
    → key_to_watcher_from key token domain ws k ≡ some n
    → (j : ℕ) × (n ≡ k + j) × (link_at ws j ≡ 1)
unfolding key_to_watcher_from
linked_from key token domain [] k n h = cc
linked_from key token domain (w ∷ ws) k n h = elim (Bool-cases (key_matches key token domain w)) [
  | inl here ↦
      let found : k ≡ n = cc (rw (here, key_to_watcher_from) at h) in
      (0, omega (arith, found), ground (arith, here))
  | inr further ↦
      let (j, at, on) =
        linked_from key token domain ws (k + 1) n (rw (further, key_to_watcher_from) at h) in
      (suc j, omega (arith, at), on)
]

pub key_to_watcher-linked :
    (key token : List ℕ) (domain : Option ℕ) (ws : List Watch) (n : ℕ)
    → key_to_watcher key token domain ws ≡ some n
    → link_at ws n ≡ 1
unfolding key_to_watcher
key_to_watcher-linked key token domain ws n h =
    let (j, at, on) = linked_from key token domain ws 0 n h in
    let same : n ≡ j = omega (arith, at) in rw same on

ref-append :
    (ws : List Watch) (w : Watch) (n : ℕ)
    → w.ref ≡ 1
    → ref_at (ws ++ w ∷ []) n ≡ ref_at ws n + one (length ws) n
ref-append [] w zero r = r
ref-append [] w (suc n) r = refl
ref-append (v ∷ ws) w zero r = omega arith
ref-append (v ∷ ws) w (suc n) r = ref-append ws w n r

link-append :
    (ws : List Watch) (w : Watch) (n : ℕ)
    → w.linked ≡ true
    → link_at (ws ++ w ∷ []) n ≡ link_at ws n + one (length ws) n
link-append [] w zero on = rw on refl
link-append [] w (suc n) on = refl
link-append (v ∷ ws) w zero on = omega arith
link-append (v ∷ ws) w (suc n) on = link-append ws w n on

-- A new watch brings the reference of the list.
pub Balanced-append :
    (base : ℕ → ℕ) (ws : List Watch) (w : Watch)
    → w.ref ≡ 1
    → w.linked ≡ true
    → Balanced base ws
    → Balanced base (ws ++ w ∷ [])
Balanced-append base ws w r on b n = omega (arith, ref-append ws w n r, link-append ws w n on, b n)

pub link_at-new :
    (ws : List Watch) (w : Watch) → w.linked ≡ true → link_at (ws ++ w ∷ []) (length ws) ≡ 1
link_at-new [] w on = rw on refl
link_at-new (v ∷ ws) w on = link_at-new ws w on

-- A change of neither the count nor the link.
ref-change :
    (f : Watch → Watch)
    → ((w : Watch) → (f w).ref ≡ w.ref)
    → (ws : List Watch) (n m : ℕ) → ref_at (change_at f ws n) m ≡ ref_at ws m
unfolding change_at
ref-change f k [] n m = refl
ref-change f k (w ∷ ws) zero zero = k w
ref-change f k (w ∷ ws) zero (suc m) = refl
ref-change f k (w ∷ ws) (suc n) zero = refl
ref-change f k (w ∷ ws) (suc n) (suc m) = ref-change f k ws n m

pub Balanced-change :
    (base : ℕ → ℕ) (f : Watch → Watch) (ws : List Watch) (n : ℕ)
    → ((w : Watch) → (f w).ref ≡ w.ref)
    → ((w : Watch) → (f w).linked ≡ w.linked)
    → Balanced base ws
    → Balanced base (change_at f ws n)
Balanced-change base f ws n r l b m =
    omega (arith, ref-change f r ws n m, link-change f l ws n m, b m)
