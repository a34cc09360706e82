-- ===== src/Vch/Flow.antt =====
-- What the two calls do to the rings, seen as queues of bytes.
use zephyr_xenlib.Errno.{Result, efault, err, ok}
use zephyr_xenlib.Buffer.Wrapped.{
  length-get_wrapped, length-put_wrapped, window-get_wrapped, window-put_wrapped, get_wrapped,
  put_wrapped,
}
use zephyr_xenlib.Buffer.{u32_mod, sub32, add32}
use zephyr_xenlib.Buffer.Window.{IsRingSize, window}
use zephyr_xenlib.Vch.{
  vchan_notify_write, vch_get_wr_avail, vchan_notify_read, put_in, vch_is_live, vch_get_rd_avail,
  read_pass, has_bit, write_pass, vch_write, vch_read, notify_evtchn, passes, clear_bit, take_bytes,
  Wake, returns, waits, astray, waits, ok, returns, notified_or, Pass, Vch, leaves_ring, vch_notify,
  add32, sub32, put_wrapped, ring_sz, Ring,
}
use zephyr_xenlib.Prelude.{
  ℕ, ◌+◌, ◌-◌, ◌%◌, ◌≤◌, ◌<◌, min, ◌≡◌, refl, ap, ◌∙◌, Bool, true, false, not, ◌&&◌, List, [], ◌∷◌,
  ◌++◌, arith, length, take, length-take, ◌==◌, if◌then◌else◌,
}

-- A ring of a size that divides the range of the indices, which are at most the size apart.
pub record IsHealthy (r : Ring) : Type 0 where
  pub is_size : IsRingSize (ring_sz r)
  pub size_in : ring_sz r ≤ 2048
  pub whole : length r.cbuf ≡ ring_sz r
  pub cons_in : r.cons < u32_mod
  pub prod_in : r.prod < u32_mod
  pub apart : sub32 r.prod r.cons ≤ ring_sz r

-- the bytes that the reader has not taken
abbrev pub bytes_of : Ring → List ℕ
bytes_of r = window (ring_sz r) r.cbuf r.cons (sub32 r.prod r.cons)

abbrev pub taken_from : ℕ → Ring → Ring
taken_from n r = record r { cons = add32 r.cons n }

abbrev pub put_to : List ℕ → Ring → Ring
put_to bytes r = record r {
  cbuf = put_wrapped (ring_sz r) r.cbuf (r.prod % ring_sz r) bytes;
  prod = add32 r.prod (length bytes);
}

taken_lem :
    (r : Ring) (n : ℕ)
    → IsHealthy r
    → n ≤ sub32 r.prod r.cons
    → IsHealthy (taken_from n r)
      × (bytes_of r
          ≡ get_wrapped (ring_sz r) r.cbuf (r.cons % ring_sz r) n ++ bytes_of (taken_from n r))
taken_lem r n s few = (
  record {
    is_size = s.is_size;
    size_in = s.size_in;
    whole = s.whole;
    cons_in = omega arith;
    prod_in = s.prod_in;
    apart = omega (arith, less, s.apart);
  },
  ap (window (ring_sz r) r.cbuf r.cons) less
      ∙ window-get_wrapped s.is_size r.cbuf r.cons n (sub32 r.prod (add32 r.cons n)) s.cons_in
          (omega (arith, few, s.apart)),
)
  where
    less : sub32 r.prod r.cons ≡ n + sub32 r.prod (add32 r.cons n)
    less = omega (arith, few, s.apart, s.size_in, s.cons_in, s.prod_in)

put_lem :
    (r : Ring) (bytes : List ℕ)
    → IsHealthy r
    → length bytes ≤ ring_sz r - sub32 r.prod r.cons
    → IsHealthy (put_to bytes r) × (bytes_of (put_to bytes r) ≡ bytes_of r ++ bytes)
put_lem r bytes s fits = (
  record {
    is_size = s.is_size;
    size_in = s.size_in;
    whole = length-put_wrapped (ring_sz r) r.cbuf (r.prod % ring_sz r) bytes ∙ s.whole;
    cons_in = s.cons_in;
    prod_in = omega arith;
    apart = omega (arith, more, fits, s.apart);
  },
  ap (window (ring_sz r) (put_to bytes r).cbuf r.cons) more
      ∙ ap
          (λ at.
            window (ring_sz r) (put_wrapped (ring_sz r) r.cbuf at bytes) r.cons
              (sub32 r.prod r.cons + length bytes))
          place
      ∙ window-put_wrapped s.is_size bytes r.cbuf (sub32 r.prod r.cons) r.cons s.whole
          (omega (arith, fits, s.apart)),
)
  where
    more : sub32 (add32 r.prod (length bytes)) r.cons ≡ sub32 r.prod r.cons + length bytes
    more = omega (arith, fits, s.apart, s.size_in, s.cons_in, s.prod_in)

    place : r.prod % ring_sz r ≡ (r.cons + sub32 r.prod r.cons) % ring_sz r
    place =
        ap (λ t. t % ring_sz r) (omega (arith, s.cons_in, s.prod_in))
        ∙ s.is_size.wraps r.cons (sub32 r.prod r.cons)

-- Soundness keeps the second copy in the ring.
stays_in : (r : Ring) (idx n : ℕ) → n ≤ ring_sz r → leaves_ring r idx n ≡ false
stays_in r idx n h = ground (arith, h)

-- What the notification leaves alone.
abbrev pub SameRings : Vch → Vch → Type 0
SameRings h h' = (h'.read ≡ h.read) × (h'.write ≡ h.write)

-- The peer asked to be told: its bit is set in the word that it sets.
abbrev pub asked : ℕ → Vch → Bool
asked bit h = has_bit (if h.is_server then h.srv_notify else h.cli_notify) bit

-- The next call of notify_evtchn fails.
abbrev pub fails : List (Result (Unit {0})) → Bool
fails [] = false
fails (ok _ ∷ rs) = false
fails (err _ ∷ rs) = true

-- A call whose peer is told, where `bell` says that it is to be, returns its result, or EFAULT exactly
-- where that is done and fails. It calls notify_evtchn once where it is to be done, and not at all
-- where it is not.
abbrev pub Told : {A : Type 0} → A → Bool → List (Result (Unit {0})) → ℕ → Vch → Pass A → Type 0
Told a bell answers calls h (returns r h') =
    (r ≡ (if bell && fails answers then err efault else ok a))
    × (h'.notified ≡ (if bell then calls + 1 else calls))
    × SameRings h h'
Told a bell answers calls h (waits h') = ⊥
Told a bell answers calls h astray = ⊥

-- The peer is told of a transfer where it asked for it by `bit`.
abbrev pub Returns : {A : Type 0} → A → ℕ → Vch → Pass A → Type 0
Returns a bit h p = Told a (asked bit h) h.answers h.notified h p

answered :
    {A : Type 0} (a : A) (h h1 : Vch) (bell : Bool)
    → SameRings h h1
    → Told a bell h1.answers h1.notified h
        (notified_or a (if bell then notify_evtchn h1 else (ok tt, h1)))
answered a h h1 false same = (refl, refl, same)
answered a h h1 true same = go h1.answers
  where
    go :
        (answers : List (Result (Unit {0})))
        → Told a true answers h1.notified h (
            notified_or a (elim answers [
              | [] ↦ (ok tt, record h1 { notified = h1.notified + 1 })
              | r ∷ rs ↦ (r, record h1 { answers = rs; notified = h1.notified + 1 })
            ]))
    go [] = (refl, refl, same)
    go (ok u ∷ rs) = (refl, refl, same)
    go (err e ∷ rs) = (refl, refl, same)

notified_lem :
    {A : Type 0} (a : A) (bit : ℕ) (h : Vch) → Returns a bit h (notified_or a (vch_notify bit h))
unfolding vch_notify
notified_lem a bit h = go h.is_server
  where
    val : ℕ
    val = if h.is_server then h.srv_notify else h.cli_notify

    go :
        (server : Bool)
        → Told a (has_bit val bit) h.answers h.notified h (
            notified_or a (
              let h1 : Vch =
                if server
                then record h { srv_notify = clear_bit val bit }
                else record h { cli_notify = clear_bit val bit } in
              if has_bit val bit then notify_evtchn h1 else (ok tt, h1)))
    go true =
        answered a h (record h { srv_notify = clear_bit val bit }) (has_bit val bit) (refl, refl)
    go false =
        answered a h (record h { cli_notify = clear_bit val bit }) (has_bit val bit) (refl, refl)

-- A pass that returns is the whole call.
passes-returns :
    {A : Type 0} (pass : Vch → Pass A) (wakes : List Wake) (h : Vch) (r : Result A) (h' : Vch)
    → pass h ≡ returns r h'
    → passes pass wakes h ≡ returns r h'
unfolding passes
passes-returns pass [] h r h' e = e
passes-returns pass (wake ∷ wakes) h r h' e = rw (e, passes) refl

passes-Returns :
    {A : Type 0} (a : A) (bit : ℕ) (pass : Vch → Pass A) (wakes : List Wake) (h h1 : Vch)
    → Returns a bit h1 (pass h)
    → Returns a bit h1 (passes pass wakes h)
passes-Returns a bit pass wakes h h1 k = go (pass h) refl k
  where
    go : (p : Pass _) → pass h ≡ p → Returns a bit h1 p → Returns a bit h1 (passes pass wakes h)
    go (returns r h') e k1 = rw (passes-returns pass wakes h r h' e) k1
    go (waits _) e k1 = elim k1 [ ]
    go astray e k1 = elim k1 [ ]

-- What vch_read did: it took the first bytes of the ring.
abbrev pub got : ℕ → Vch → List ℕ
got size h = (take_bytes (min size (vch_get_rd_avail h)) h).0

abbrev pub after_read : ℕ → Vch → Vch
after_read size h = (take_bytes (min size (vch_get_rd_avail h)) h).1

-- vch_read on a live channel with a sound ring in which bytes wait, whether it blocks or not, returns
-- at once: the first bytes that wait, as many as are asked for, also where they stand across the end
-- of the ring; it is EFAULT exactly where the peer asked to be notified of reads and that fails. Either
-- way those bytes leave the ring, which stays sound, and the peer is notified exactly where it asked.
pub vch_read_lem :
    (size : ℕ) (wakes : List Wake) (h : Vch)
    → vch_is_live h ≡ true
    → IsHealthy h.read
    → 0 < vch_get_rd_avail h
    → Returns (got size h) vchan_notify_read (after_read size h) (vch_read true size wakes h)
      × (bytes_of h.read ≡ got size h ++ bytes_of (after_read size h).read)
      × (length (got size h) ≡ min size (vch_get_rd_avail h))
      × IsHealthy (after_read size h).read
unfolding vch_read read_pass
vch_read_lem size wakes h live s some_bytes = (
  passes-Returns (got size h) vchan_notify_read (read_pass true size) wakes h (after_read size h) (
      rw (ap not live, not_empty, inside)
        (notified_lem (got size h) vchan_notify_read (after_read size h))),
  left.1,
  length-get_wrapped (ring_sz h.read) h.read.cbuf (h.read.cons % ring_sz h.read) n,
  left.0,
)
  where
    n : ℕ
    n = min size (vch_get_rd_avail h)

    left :
        IsHealthy (taken_from n h.read)
        × (bytes_of h.read
            ≡ get_wrapped (ring_sz h.read) h.read.cbuf (h.read.cons % ring_sz h.read) n
              ++ bytes_of (taken_from n h.read))
    left = taken_lem h.read n s (omega arith)

    not_empty : (vch_get_rd_avail h == 0) ≡ false
    not_empty = ground (arith, some_bytes)

    inside : leaves_ring h.read (h.read.cons % ring_sz h.read) n ≡ false
    inside = stays_in h.read (h.read.cons % ring_sz h.read) n (omega (arith, s.apart))

-- What vch_write did: it put the first bytes behind those of the ring.
abbrev pub sent : List ℕ → Vch → ℕ
sent bytes h = min (length bytes) (vch_get_wr_avail h)

abbrev pub after_write : List ℕ → Vch → Vch
after_write bytes h = put_in (take (sent bytes h) bytes) h

-- vch_write on a live channel with a sound ring that has room, whether it blocks or not, returns at
-- once: the number of bytes, or of those that fit; it is EFAULT exactly where the peer asked to be
-- notified of writes and that fails. Either way that many of the bytes stand behind those that wait in
-- the ring, also where they stand across its end, it stays sound, and the peer is notified exactly
-- where it asked.
pub vch_write_lem :
    (bytes : List ℕ) (wakes : List Wake) (h : Vch)
    → vch_is_live h ≡ true
    → IsHealthy h.write
    → sub32 h.write.prod h.write.cons < ring_sz h.write
    → Returns (sent bytes h) vchan_notify_write (after_write bytes h) (vch_write true bytes wakes h)
      × (bytes_of (after_write bytes h).write ≡ bytes_of h.write ++ take (sent bytes h) bytes)
      × (sent bytes h ≡ min (length bytes) (ring_sz h.write - sub32 h.write.prod h.write.cons))
      × IsHealthy (after_write bytes h).write
unfolding vch_write write_pass
vch_write_lem bytes wakes h live s space =
    let (sound, queued) = put_lem h.write (take (sent bytes h) bytes) s fits in
    (
      passes-Returns (sent bytes h) vchan_notify_write (write_pass true bytes) wakes h
          (after_write bytes h)
          (rw (ap not live, not_full, inside)
            (notified_lem (sent bytes h) vchan_notify_write (after_write bytes h))),
      queued,
      ap (min (length bytes)) room,
      sound,
    )
  where
    room : vch_get_wr_avail h ≡ ring_sz h.write - sub32 h.write.prod h.write.cons
    room = omega (arith, s.apart, s.size_in)

    fits : length (take (sent bytes h) bytes) ≤ ring_sz h.write - sub32 h.write.prod h.write.cons
    fits = omega (arith, room, length-take (sent bytes h) bytes)

    not_full : (vch_get_wr_avail h == 0) ≡ false
    not_full = ground (arith, room, space)

    inside : leaves_ring h.write (h.write.prod % ring_sz h.write) (sent bytes h) ≡ false
    inside = stays_in h.write (h.write.prod % ring_sz h.write) (sent bytes h) (omega (arith, room))
