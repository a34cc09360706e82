-- ===== src/Common/Ring/Queue.antt =====
-- The two directions of a ring as queues of bytes: what is written comes out, in order.
use zephyr_xenlib.Prelude.{ℕ, ◌+◌, ◌-◌, ◌%◌, ◌≤◌, ◌<◌, ◌≡◌, ap, ◌∙◌, List, ◌++◌, arith, length}
use zephyr_xenlib.Buffer.{u32_mod, add32, sub32, put_bytes, get_bytes}
use zephyr_xenlib.Buffer.Window.{
  window, IsRingSize-1024, window-put_bytes, window-get_bytes, length-put_bytes,
}
use zephyr_xenlib.Common.Ring.{Interface}

-- One direction is sound: a whole page of bytes, indices of 32 bits, at most a page apart.
pub record IsSound (buf : List ℕ) (cons prod : ℕ) : Type 0 where
  pub whole : length buf ≡ 1024
  pub cons_in : cons < u32_mod
  pub prod_in : prod < u32_mod
  pub apart : sub32 prod cons ≤ 1024

-- the bytes that the consumer has not taken yet
abbrev pub queue : List ℕ → ℕ → ℕ → List ℕ
queue buf cons prod = window 1024 buf cons (sub32 prod cons)

-- replies and events, written by the server and read by the client
abbrev pub responses : Interface → List ℕ
responses i = queue i.rsp i.rsp_cons i.rsp_prod

-- requests, written by the client and read by the server
abbrev pub requests : Interface → List ℕ
requests i = queue i.req i.req_cons i.req_prod

pub record IsValid (i : Interface) : Type 0 where
  pub req_sound : IsSound i.req i.req_cons i.req_prod
  pub rsp_sound : IsSound i.rsp i.rsp_cons i.rsp_prod

-- Writing `m` bytes at the output offset of one direction.
module _ {buf : List ℕ} {cons prod : ℕ} (s : IsSound buf cons prod) (xs : List ℕ)
    (fits : length xs ≤ 1024 - sub32 prod cons) (chunk : prod % 1024 + length xs ≤ 1024) where
  sub32-produce : sub32 (add32 prod (length xs)) cons ≡ sub32 prod cons + length xs
  sub32-produce = omega (arith, s.apart, s.cons_in, s.prod_in)

  pub put-IsSound : IsSound (put_bytes buf (prod % 1024) xs) cons (add32 prod (length xs))
  put-IsSound = record {
    whole = length-put_bytes buf (prod % 1024) xs ∙ s.whole;
    cons_in = s.cons_in;
    prod_in = omega arith;
    apart = omega (arith, sub32-produce, s.apart);
  }

  pub queue-put :
      queue (put_bytes buf (prod % 1024) xs) cons (add32 prod (length xs))
      ≡ queue buf cons prod ++ xs
  queue-put =
      ap (window 1024 (put_bytes buf (prod % 1024) xs) cons) sub32-produce
      ∙ window-put_bytes IsRingSize-1024 xs buf (sub32 prod cons) cons (prod % 1024) s.whole
          (omega (arith, s.apart)) (omega (arith, s.cons_in, s.prod_in)) chunk

module _ {buf : List ℕ} {cons prod : ℕ} (s : IsSound buf cons prod) (m : ℕ)
    (fits : m ≤ sub32 prod cons) (chunk : cons % 1024 + m ≤ 1024) where
  sub32-consume : sub32 prod cons ≡ m + sub32 prod (add32 cons m)
  sub32-consume = omega (arith, s.apart, s.cons_in, s.prod_in)

  pub get-IsSound : IsSound buf (add32 cons m) prod
  get-IsSound = record {
    whole = s.whole;
    cons_in = omega arith;
    prod_in = s.prod_in;
    apart = omega (arith, sub32-consume, s.apart);
  }

  pub queue-get :
      queue buf cons prod ≡ get_bytes buf (cons % 1024) m ++ queue buf (add32 cons m) prod
  queue-get =
      ap (window 1024 buf cons) sub32-consume
      ∙ window-get_bytes IsRingSize-1024 buf cons m (sub32 prod (add32 cons m)) s.cons_in chunk
