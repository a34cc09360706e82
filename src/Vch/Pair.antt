-- ===== src/Vch/Pair.antt =====
-- The two ends of a channel share its page: what one writes the other reads.
use zephyr_xenlib.Buffer.{sub32}
use zephyr_xenlib.Vch.{
  vch_get_rd_avail, vchan_notify_read, vchan_notify_write, ring_sz, vch_read, returns, vch_write,
  sub32, vch_is_live, Vch, Wake,
}
use zephyr_xenlib.Buffer.Window.{length-window, window}
use zephyr_xenlib.Errno.{ok, Result, err, efault}
use mathlib.Core.Path.{ap₂, subst}
use zephyr_xenlib.Prelude.{
  ℕ, ◌≤◌, ◌<◌, min, ◌≡◌, sym, ap, ◌∙◌, Bool, true, false, not, ◌&&◌, List, [], ◌∷◌, ◌++◌,
  append-nil, arith, length, take, length-append, length-take, if◌then◌else◌,
}
use zephyr_xenlib.Vch.Flow.{
  Told, asked, fails, IsHealthy, bytes_of, Returns, got, after_read, sent, after_write,
  vch_read_lem, vch_write_lem,
}

-- The handle of the other end, with the results that its notifications will have.
abbrev pub other_end : Bool → List (Result (Unit {0})) → Vch → Vch
other_end blocking answers h = record {
  is_server = not h.is_server;
  blocking = blocking;
  read = h.write;
  write = h.read;
  cli_live = h.cli_live;
  srv_live = h.srv_live;
  cli_notify = h.cli_notify;
  srv_notify = h.srv_notify;
  answers = answers;
  notified = 0;
}

all_front : (xs front rest : List ℕ) → xs ≡ front ++ rest → length front ≡ length xs → front ≡ xs
all_front xs front rest e h = go rest (omega (arith, ap length e, length-append front rest, h)) e
  where
    go : (ys : List ℕ) → length ys ≡ 0 → xs ≡ front ++ ys → front ≡ xs
    go [] k e' = sym (append-nil front) ∙ sym e'
    go (y ∷ ys) k e' = absurd (omega (arith, k))

abbrev number : ℕ → Result ℕ
number k = ok k

returned_ok : (k a : ℕ) (failed : Bool) → number k ≡ (if failed then err efault else ok a) → k ≡ a
returned_ok k a true e = cc
returned_ok k a false e = cc

-- A write that returned, seen from the other end.
seen_from :
    (bytes : List ℕ) (wakes : List Wake) (h h' : Vch) (k : ℕ)
    → vch_is_live h ≡ true
    → IsHealthy h.write
    → sub32 h.write.prod h.write.cons ≡ 0
    → vch_write true bytes wakes h ≡ returns (ok k) h'
    → (k ≡ min (length bytes) (ring_sz h.write))
      × (bytes_of h'.write ≡ take k bytes)
      × IsHealthy h'.write
unfolding window
seen_from bytes wakes h h' k live s empty ran =
    let (ret, queued, count, sound) =
      vch_write_lem bytes wakes h live s (omega (arith, empty, s.is_size.in_range 0)) in
    let (number_is, _, (_, wr)) : Told (sent bytes h) bell h.answers h.notified
        (after_write bytes h) (returns (ok k) h') =
      rw ran at ret in
    let same : k ≡ sent bytes h =
      returned_ok k (sent bytes h) (bell && fails h.answers) number_is in
    (
      omega (arith, same, count, empty),
      ap bytes_of wr
          ∙ queued
          ∙ ap₂ (λ n m. window (ring_sz h.write) h.write.cbuf h.write.cons n ++ take m bytes) empty
              (sym same),
      subst IsHealthy (sym wr) sound,
    )
  where
    bell : Bool
    bell = asked vchan_notify_write (after_write bytes h)

-- On a live channel with a sound ring that is empty, a write at one end that returns a number of bytes
-- followed by a read at the other end, into a buffer that is large enough: the read returns exactly
-- that many of the bytes, in order; it is EFAULT exactly where the writer asked to be notified of reads
-- and that fails. The number is that of the bytes, or the size of the ring where they are more. Either
-- end may be the one that blocks.
pub vch_read-vch_write :
    (bytes : List ℕ) (size : ℕ) (wakes wakes' : List Wake) (h h' : Vch) (k : ℕ) (blocking : Bool)
    (answers : List (Result (Unit {0})))
    → vch_is_live h ≡ true
    → IsHealthy h.write
    → sub32 h.write.prod h.write.cons ≡ 0
    → 0 < length bytes
    → vch_write true bytes wakes h ≡ returns (ok k) h'
    → let o = other_end blocking answers h' in
      vch_is_live o ≡ true
      → length bytes ≤ size
      → Returns (take k bytes) vchan_notify_read (after_read size o) (vch_read true size wakes' o)
        × (k ≡ min (length bytes) (ring_sz h.write))
vch_read-vch_write bytes size wakes wakes' h h' k blocking answers live s empty some_bytes ran olive
      large =
    let (count, queued, sound) = seen_from bytes wakes h h' k live s empty ran in
    let o : Vch = other_end blocking answers h' in
    let few : vch_get_rd_avail o ≡ length (take k bytes) =
      sym (length-window (ring_sz h'.write) h'.write.cbuf h'.write.cons (vch_get_rd_avail o))
      ∙ ap length queued in
    let all : length (take k bytes) ≡ k = omega (arith, length-take k bytes, count) in
    let (ret, split, size_of, _) =
      vch_read_lem size wakes' o olive sound
        (omega (arith, few, all, count, some_bytes, s.is_size.in_range 0)) in
    let whole : got size o ≡ bytes_of h'.write =
      all_front (bytes_of h'.write) (got size o) (bytes_of (after_read size o).read) split
        (omega (arith, size_of, ap length queued, few, all, count, large)) in
    (
      subst (λ xs. Returns xs vchan_notify_read (after_read size o) (vch_read true size wakes' o))
          (whole ∙ queued) ret,
      count,
    )
