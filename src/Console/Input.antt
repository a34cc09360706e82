-- ===== src/Console/Input.antt =====
-- What the operator types, on its way to the guest: write_to_ext_ring.
use zephyr_xenlib.Buffer.Window.{IsRingSize-1024, window-put_bytes, window}
use zephyr_xenlib.Buffer.{add32, u32_mod, sub32, put_bytes}
use zephyr_xenlib.Console.{
  store_in, out_size, in_size, sub32, write_bytes, write_to_ext_ring, Xencons,
}
use mathlib.Core.Path.{ap₂}
use zephyr_xenlib.Prelude.{
  ℕ, ◌+◌, ◌-◌, ◌%◌, ◌≤◌, ◌<◌, ◌≡◌, refl, ap, ◌∙◌, inl, inr, true, false, List, [], ◌∷◌, ◌++◌, arith,
  length, set, take, length-take, ltb, if◌then◌else◌, Bool-cases,
}

-- What the guest is to read.
abbrev pub typed : Xencons → List ℕ
typed i = window 1024 i.in_ring i.in_cons (sub32 i.in_prod i.in_cons)

-- The bytes that fit.
abbrev pub fitting : List ℕ → Xencons → List ℕ
fitting bytes i =
    let free_space = in_size - sub32 i.in_prod i.in_cons in
    if ltb free_space (length bytes) then take free_space bytes else bytes

length-fitting :
    (bytes : List ℕ) (i : Xencons) → length (fitting bytes i) ≤ in_size - sub32 i.in_prod i.in_cons
length-fitting bytes i =
    elim (Bool-cases (ltb (in_size - sub32 i.in_prod i.in_cons) (length bytes))) [
      | inl long ↦ rw long (omega (arith, length-take (in_size - sub32 i.in_prod i.in_cons) bytes))
      | inr short ↦ rw short (ground (arith, short))
    ]

write_sane :
    (bytes : List ℕ) (i : Xencons)
    → sub32 i.in_prod i.in_cons ≤ 1024
    → write_to_ext_ring bytes i ≡ write_bytes (fitting bytes i) i.in_prod i
unfolding write_to_ext_ring
write_sane bytes i sane =
    let ok : ltb in_size (sub32 i.in_prod i.in_cons) ≡ false = ground (arith, sane) in rw ok refl

store_in_lem :
    (prod b : ℕ) (i : Xencons)
    → prod % 2048 < 1024
    → store_in (prod % out_size) b i ≡ record i { in_ring = set i.in_ring (prod % 1024) b }
store_in_lem prod b i h =
    let here : ltb (prod % out_size) in_size ≡ true = ground (arith, h) in
    rw here (ap (λ x. record i { in_ring = set i.in_ring x b }) (omega (arith, h)))

store_in_astray :
    (prod b : ℕ) (i : Xencons)
    → 1024 ≤ prod % 2048
    → store_in (prod % out_size) b i ≡ record i { out_ring = set i.out_ring (prod % 2048 - 1024) b }
store_in_astray prod b i h =
    let there : ltb (prod % out_size) in_size ≡ false = ground (arith, h) in rw there refl

-- While the index stays in the first half of a period of 2048, the bytes are copied to `in`.
write_bytes_in :
    (bytes : List ℕ) (prod : ℕ) (i : Xencons)
    → prod < u32_mod
    → prod % 2048 + length bytes ≤ 1024
    → write_bytes bytes prod i ≡ record i {
      in_ring = put_bytes i.in_ring (prod % 1024) bytes;
      in_prod = add32 prod (length bytes);
    }
unfolding write_bytes put_bytes
write_bytes_in [] prod i small h = ap (λ p. record i { in_prod = p }) (omega (arith, small))
write_bytes_in (b ∷ []) prod i small h =
    ap (λ (j : Xencons). record j { in_prod = add32 prod 1 })
      (store_in_lem prod b i (omega (arith, h)))
write_bytes_in (b ∷ b' ∷ bs) prod i small h =
    ap (write_bytes (b' ∷ bs) (add32 prod 1)) (store_in_lem prod b i (omega (arith, h)))
    ∙ write_bytes_in (b' ∷ bs) (add32 prod 1) (record i { in_ring = set i.in_ring (prod % 1024) b })
        (omega arith) (omega (arith, h))
    ∙ ap₂
        (λ off p. record i {
          in_ring = put_bytes (set i.in_ring (prod % 1024) b) off (b' ∷ bs);
          in_prod = p;
        })
        next (omega arith)
  where
    next : add32 prod 1 % 1024 ≡ prod % 1024 + 1
    next = omega (arith, h)

-- In the other half they are copied to `out`.
write_bytes_astray :
    (bytes : List ℕ) (prod : ℕ) (i : Xencons)
    → prod < u32_mod
    → 1024 ≤ prod % 2048
    → prod % 2048 + length bytes ≤ 2048
    → write_bytes bytes prod i ≡ record i {
      out_ring = put_bytes i.out_ring (prod % 2048 - 1024) bytes;
      in_prod = add32 prod (length bytes);
    }
unfolding write_bytes put_bytes
write_bytes_astray [] prod i small h k = ap (λ p. record i { in_prod = p }) (omega (arith, small))
write_bytes_astray (b ∷ []) prod i small h k =
    ap (λ (j : Xencons). record j { in_prod = add32 prod 1 }) (store_in_astray prod b i h)
write_bytes_astray (b ∷ b' ∷ bs) prod i small h k =
    ap (write_bytes (b' ∷ bs) (add32 prod 1)) (store_in_astray prod b i h)
    ∙ write_bytes_astray (b' ∷ bs) (add32 prod 1)
        (record i { out_ring = set i.out_ring (prod % 2048 - 1024) b }) (omega arith)
        (omega (arith, h, k)) (omega (arith, k))
    ∙ ap₂
        (λ off p. record i {
          out_ring = put_bytes (set i.out_ring (prod % 2048 - 1024) b) off (b' ∷ bs);
          in_prod = p;
        })
        next (omega arith)
  where
    next : add32 prod 1 % 2048 - 1024 ≡ prod % 2048 - 1024 + 1
    next = omega (arith, h, k)

-- write_to_ext_ring on a sound `in` ring, where the producer index modulo 2048 and the bytes that fit
-- stay within 1024: the guest is to read what it was to read before and behind it those bytes, as many
-- as the ring has room for, and its own output is as before.
pub write_to_ext_ring_lem :
    (bytes : List ℕ) (i : Xencons)
    → length i.in_ring ≡ 1024
    → i.in_cons < u32_mod
    → i.in_prod < u32_mod
    → sub32 i.in_prod i.in_cons ≤ 1024
    → i.in_prod % 2048 + length (fitting bytes i) ≤ 1024
    → let i' = write_to_ext_ring bytes i in
      (typed i' ≡ typed i ++ fitting bytes i) × (i'.out_ring ≡ i.out_ring)
write_to_ext_ring_lem bytes i whole cons_in prod_in sane first =
    rw (write_sane bytes i sane, write_bytes_in (fitting bytes i) i.in_prod i prod_in first)
      (
        ap (window 1024 (put_bytes i.in_ring (i.in_prod % 1024) (fitting bytes i)) i.in_cons) more
            ∙ window-put_bytes IsRingSize-1024 (fitting bytes i) i.in_ring
                (sub32 i.in_prod i.in_cons) i.in_cons (i.in_prod % 1024) whole
                (omega (arith, length-fitting bytes i, sane)) (omega (arith, cons_in, prod_in))
                (omega (arith, first)),
        refl,
      )
  where
    more :
        sub32 (add32 i.in_prod (length (fitting bytes i))) i.in_cons
        ≡ sub32 i.in_prod i.in_cons + length (fitting bytes i)
    more = omega (arith, length-fitting bytes i, sane, cons_in, prod_in)

-- write_to_ext_ring on a sound `in` ring, where the producer index modulo 2048 is at least 1024 and the
-- bytes that fit do not pass the end of that half: no byte of `in` changes, though the index moves on
-- over the bytes, and they are written over the guest's output.
pub write_to_ext_ring_astray :
    (bytes : List ℕ) (i : Xencons)
    → i.in_prod < u32_mod
    → sub32 i.in_prod i.in_cons ≤ 1024
    → 1024 ≤ i.in_prod % 2048
    → i.in_prod % 2048 + length (fitting bytes i) ≤ 2048
    → let i' = write_to_ext_ring bytes i in
      (i'.in_ring ≡ i.in_ring)
      × (i'.in_prod ≡ add32 i.in_prod (length (fitting bytes i)))
      × (i'.out_ring ≡ put_bytes i.out_ring (i.in_prod % 2048 - 1024) (fitting bytes i))
write_to_ext_ring_astray bytes i prod_in sane second within =
    rw
      (
        write_sane bytes i sane,
        write_bytes_astray (fitting bytes i) i.in_prod i prod_in second within,
      )
      (refl, refl, refl)
