-- ===== src/Server/State/Stream.antt =====
-- The replies of a connection as one stream of bytes: what the client has not read yet, and behind
-- it what waits in the output buffers.
use mathlib.Core.Path.{ap₂, subst}
use zephyr_xenlib.Prelude.{
  ℕ, zero, suc, ◌≤◌, ◌<◌, ◌≡◌, refl, sym, ap, ◌∙◌, inl, inr, true, false, List, [], ◌∷◌, ◌++◌,
  append-nil, append_assoc, arith, length, take, drop, length-append, take-append-drop, length-take,
  length-drop, ltb, if◌then◌else◌, ltb→lt, Bool-cases,
}
use zephyr_xenlib.Buffer.{sub32}
use zephyr_xenlib.Common.Ring.{Interface, ring_write}
use zephyr_xenlib.Common.Ring.Queue.{IsValid, responses}
use zephyr_xenlib.Common.Ring.Progress.{written, ring_write_lem}
use zephyr_xenlib.Server.State.{
  drain, Server, OutBuffer, handle_output, can_write, wrote, write_first,
}

abbrev pub joined : List OutBuffer → List ℕ
joined [] = []
joined (b ∷ bs) = b ++ joined bs

abbrev pub stream : Server → List ℕ
stream s = responses s.domint ++ joined s.out_list

pub joined-append : (bs : List OutBuffer) (b : OutBuffer) → joined (bs ++ b ∷ []) ≡ joined bs ++ b
joined-append [] b = append-nil b
joined-append (c ∷ bs) b =
    ap (λ x. c ++ x) (joined-append bs b) ∙ sym (append_assoc c (joined bs) b)

-- The state of the output that every call keeps: a sound ring, the count of the buffers, and no
-- buffer without bytes.
abbrev pub NoneEmpty : List OutBuffer → Type 0
NoneEmpty [] = Unit
NoneEmpty (b ∷ bs) = (0 < length b) × NoneEmpty bs

pub record IsReady (s : Server) : Type 0 where
  pub ring : IsValid s.domint
  pub counted : s.used_out_bufs ≡ length s.out_list
  pub filled : NoneEmpty s.out_list

take-all : (n : ℕ) (xs : List ℕ) → length xs ≤ n → take n xs ≡ xs
take-all zero [] h = refl
take-all zero (x ∷ xs) h = absurd (omega arith)
take-all (suc n) [] h = refl
take-all (suc n) (x ∷ xs) h = ap (λ l. x ∷ l) (take-all n xs (omega arith))

-- What a write of `n` bytes of the first buffer leaves in the list.
after_write : List ℕ → List OutBuffer → ℕ → List OutBuffer
after_write out rest n = if ltb n (length out) then drop n out ∷ rest else rest

joined-after_write :
    (out : List ℕ) (rest : List OutBuffer) (n : ℕ)
    → take n out ++ joined (after_write out rest n) ≡ out ++ joined rest
unfolding after_write
joined-after_write out rest n = elim (Bool-cases (ltb n (length out))) [
  | inl part ↦ rw part (
      sym (append_assoc (take n out) (drop n out) (joined rest))
      ∙ ap (λ x. x ++ joined rest) (take-append-drop n out))
  | inr whole ↦
      let all : length out ≤ n = ground arith in
      rw whole (ap (λ x. x ++ joined rest) (take-all n out all))
]

written_state :
    (out : List ℕ) (rest : List OutBuffer) (n : ℕ) (intf : Interface) (s : Server)
    → ((wrote out rest n intf s).out_list ≡ after_write out rest n)
      × ((wrote out rest n intf s).domint ≡ intf)
unfolding after_write
written_state out rest n intf s = ground arith

-- how much one call writes of a buffer
abbrev taken : List ℕ → Server → ℕ
taken out s = written false s.domint (length out)

write_first-ok :
    (out : List ℕ) (rest : List OutBuffer) (s : Server)
    → IsValid s.domint
    → write_first (out ∷ rest) s ≡ wrote out rest (taken out s) (ring_write s.domint out false).1 s
unfolding write_first
write_first-ok out rest s v = ground (arith, ring_write_lem false s.domint out v)

write_first-stream :
    (bs : List OutBuffer) (s : Server)
    → s.out_list ≡ bs
    → IsValid s.domint
    → stream (write_first bs s) ≡ stream s
unfolding write_first
write_first-stream [] s e v = refl
write_first-stream (out ∷ rest) s e v =
    ap stream (write_first-ok out rest s v)
    ∙ ap₂ (λ i bs. responses i ++ joined bs) (written_state out rest n intf s).1
        (written_state out rest n intf s).0
    ∙ ap (λ x. x ++ joined (after_write out rest n)) (ring_write_lem false s.domint out v).1
    ∙ append_assoc (responses s.domint) (take n out) (joined (after_write out rest n))
    ∙ ap (λ x. responses s.domint ++ x) (joined-after_write out rest n)
    ∙ ap (λ x. responses s.domint ++ joined x) (sym e)
  where
    n : ℕ
    n = taken out s

    intf : Interface
    intf = (ring_write s.domint out false).1

-- handle_output moves bytes from the first buffer to the ring, and the bytes that the client is still
-- to read, those in the ring and those in the buffers, are the same sequence before and after. The
-- output has to be ready: a sound ring, and no empty buffer.
pub stream-handle_output : (s : Server) → IsReady s → stream (handle_output s) ≡ stream s
unfolding handle_output
stream-handle_output s r = write_first-stream s.out_list s refl r.ring

length-drop_pos : (n : ℕ) (xs : List ℕ) → n < length xs → 0 < length (drop n xs)
length-drop_pos n xs h = omega (arith, length-drop n xs)

wrote-IsReady :
    (out : List ℕ) (rest : List OutBuffer) (n : ℕ) (intf : Interface) (s : Server)
    → s.out_list ≡ out ∷ rest
    → IsReady s
    → IsValid intf
    → IsReady (wrote out rest n intf s)
wrote-IsReady out rest n intf s e r v = elim (Bool-cases (ltb n (length out))) [
  | inl part ↦
      let f : NoneEmpty (out ∷ rest) = rw e at r.filled in
      rw part (record {
        ring = v;
        counted = r.counted ∙ ap length e;
        filled = (length-drop_pos n out (ltb→lt n (length out) part), f.1);
      })
  | inr whole ↦
      let f : NoneEmpty (out ∷ rest) = rw e at r.filled in
      rw whole (record { ring = v; counted = omega (arith, r.counted, ap length e); filled = f.1 })
]

write_first-IsReady :
    (bs : List OutBuffer) (s : Server) → s.out_list ≡ bs → IsReady s → IsReady (write_first bs s)
unfolding write_first
write_first-IsReady [] s e r = r
write_first-IsReady (out ∷ rest) s e r = subst IsReady (sym (write_first-ok out rest s r.ring)) (
    wrote-IsReady out rest (taken out s) (ring_write s.domint out false).1 s e r
      (ring_write_lem false s.domint out r.ring).3)

-- handle_output keeps a ready output ready: the ring is sound, the count of the buffers is right, and
-- no buffer is empty.
pub handle_output-IsReady : (s : Server) → IsReady s → IsReady (handle_output s)
unfolding handle_output
handle_output-IsReady s r = write_first-IsReady s.out_list s refl r

abbrev pub left : Server → ℕ
left s = length (joined s.out_list)

left-write_first :
    (bs : List OutBuffer) (s : Server)
    → s.out_list ≡ bs
    → IsReady s
    → 0 < length bs
    → sub32 s.domint.rsp_prod s.domint.rsp_cons < 1024
    → left (write_first bs s) < left s
unfolding write_first
left-write_first [] s e r p space = absurd (omega arith)
left-write_first (out ∷ rest) s e r p space =
    subst (λ x. left x < left s) (sym (write_first-ok out rest s r.ring))
      (omega (
        arith,
        ap (λ x. length (joined x)) (written_state out rest n intf s).0,
        ap length (joined-after_write out rest n),
        length-append (take n out) (joined (after_write out rest n)),
        length-append out (joined rest),
        length-take n out,
        ap (λ x. length (joined x)) e,
        some_bytes,
      ))
  where
    n : ℕ
    n = taken out s

    intf : Interface
    intf = (ring_write s.domint out false).1

    some_bytes : 0 < length out
    some_bytes = let f : NoneEmpty (out ∷ rest) = rw e at r.filled in f.0

left-handle_output : (s : Server) → IsReady s → can_write s ≡ true → left (handle_output s) < left s
unfolding handle_output can_write
left-handle_output s r c = left-write_first s.out_list s refl r (ground arith) (ground arith)

-- The loop of the event thread, on a ready output and with as much fuel as bytes wait in the buffers,
-- ends because nothing is left to write or the ring is full. It keeps the sequence of bytes that the
-- client is to read, and it keeps the output ready.
pub drain_lem :
    (fuel : ℕ) (s : Server)
    → IsReady s
    → left s ≤ fuel
    → (can_write (drain fuel s) ≡ false)
      × (stream (drain fuel s) ≡ stream s)
      × IsReady (drain fuel s)
unfolding drain
drain_lem zero s r h = elim (Bool-cases (can_write s)) [
  | inl more ↦ absurd (omega (arith, h, left-handle_output s r more))
  | inr f ↦ (f, refl, r)
]
drain_lem (suc fuel) s r h = elim (Bool-cases (can_write s)) [
  | inl more ↦
      let (c, st, rdy) =
        drain_lem fuel (handle_output s) (handle_output-IsReady s r)
          (omega (arith, left-handle_output s r more)) in
      rw (more, drain) (c, st ∙ stream-handle_output s r, rdy)
  | inr finished ↦ rw (finished, drain) (finished, refl, r)
]
