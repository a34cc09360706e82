-- ===== src/Vch.antt =====
-- Virtual channels (vch/src/vch.c): reading and writing on the two rings of one shared page. Indices
-- are uint32_t and run freely; a ring has 2^10 or 2^11 bytes.
pub mod Flow
pub mod Pair
mod Tests
use zephyr_xenlib.Buffer.{add32, sub32}
use zephyr_xenlib.Errno.{enobufs, efault, enotconn, ok, err, Result}
use zephyr_xenlib.Buffer.Wrapped.{put_wrapped, get_wrapped}
use zephyr_xenlib.Prelude.{
  ℕ, zero, suc, ◌+◌, ◌-◌, ◌*◌, ◌/◌, ◌%◌, ◌^◌, ◌≤◌, ◌<◌, min, max, ◌≡◌, refl, sym, ap, ◌∙◌, ◌≢◌, ◌↔◌,
  ◌⊎◌, inl, inr, Bool, true, false, not, ◌&&◌, ◌||◌, Option, none, some, List, [], ◌∷◌, ◌++◌, map,
  append-nil, append_assoc, arith, ℕ_discrete, length, set, get_or, take, drop, replicate,
  length-append, length-set, get_or-set_self, get_or-set_ne, take-append-drop, length-take,
  length-drop, length-replicate, take-append, drop-append, ltb, leb, ◌==◌, if◌then◌else◌, ltb→lt,
  lt→ltb, leb→le, ==_iff, tests, Bool-cases, Option-cases, map-eq-some,
}

-- struct ring_shared with the bytes that belong to it, and the ring's order.
pub record Ring : Type 0 where
  pub cons : ℕ
  pub prod : ℕ
  pub cbuf : List ℕ
  pub order : ℕ

-- struct vch_handle, and of struct vchan_interface what it leads to: the ring that it reads and the
-- one that it writes. `answers` is what the coming calls of notify_evtchn return, and past the end they
-- succeed; `notified` counts those calls.
pub record Vch : Type 0 where
  pub is_server : Bool
  pub blocking : Bool
  pub read : Ring
  pub write : Ring
  pub cli_live : ℕ
  pub srv_live : ℕ
  pub cli_notify : ℕ
  pub srv_notify : ℕ
  pub answers : List (Result (Unit {0}))
  pub notified : ℕ

abbrev pub vchan_notify_write : ℕ
vchan_notify_write = 1

abbrev pub vchan_notify_read : ℕ
vchan_notify_read = 2

abbrev pub ring_sz : Ring → ℕ
ring_sz r = 2 ^ r.order

-- val & rw, for a single bit `rw`
abbrev pub has_bit : ℕ → ℕ → Bool
has_bit val rw = val / rw % 2 == 1

abbrev pub notify_evtchn : Vch → Result (Unit {0}) × Vch
notify_evtchn h = elim h.answers [
  | [] ↦ (ok tt, record h { notified = h.notified + 1 })
  | r ∷ rs ↦ (r, record h { answers = rs; notified = h.notified + 1 })
]

-- __atomic_fetch_and(target, ~rw) and __atomic_fetch_or(target, bit), for a single bit
abbrev pub clear_bit : ℕ → ℕ → ℕ
clear_bit val rw = if has_bit val rw then val - rw else val

abbrev pub set_bit : ℕ → ℕ → ℕ
set_bit val rw = if has_bit val rw then val else val + rw

-- The bit is the one that the peer set, and it is cleared.
unfoldable pub vch_notify : ℕ → Vch → Result (Unit {0}) × Vch
vch_notify rw h =
    let val = if h.is_server then h.srv_notify else h.cli_notify in
    let h' : Vch =
      if h.is_server
      then record h { srv_notify = clear_bit val rw }
      else record h { cli_notify = clear_bit val rw } in
    if has_bit val rw then notify_evtchn h' else (ok tt, h')

abbrev pub vch_is_live : Vch → Bool
vch_is_live h = not ((if h.is_server then h.cli_live else h.srv_live) == 0)

unfoldable pub vch_unmask_notify : ℕ → Vch → Vch
vch_unmask_notify bit h =
    if h.is_server
    then record h { cli_notify = set_bit h.cli_notify bit }
    else record h { srv_notify = set_bit h.srv_notify bit }

abbrev pub vch_get_rd_avail : Vch → ℕ
vch_get_rd_avail h = sub32 h.read.prod h.read.cons

abbrev pub vch_get_wr_avail : Vch → ℕ
vch_get_wr_avail h = sub32 (ring_sz h.write) (sub32 h.write.prod h.write.cons)

-- What one pass of the loop does: it returns, it goes on where the handle blocks, or, where the peer's
-- indices are too far apart, its second copy leaves the ring.
pub data Pass {ℓ} (A : Type ℓ) : Type ℓ where
  returns : Result A → Vch → Pass A
  waits : Vch → Pass A
  astray : Pass A

-- The second copy, of `n` bytes less those of the first, leaves the ring.
abbrev pub leaves_ring : Ring → ℕ → ℕ → Bool
leaves_ring r idx n = ltb (ring_sz r) (n - min (ring_sz r - idx) n)

-- The notification after the transfer: where it fails, so does the call.
abbrev pub notified_or {ℓ} : {A : Type ℓ} → A → Result (Unit {0}) × Vch → Pass A
notified_or a (ok _, h) = returns (ok a) h
notified_or a (err _, h) = returns (err efault) h

abbrev pub idle {ℓ} : {A : Type ℓ} → A → Vch → Pass A
idle a h = if h.blocking then waits h else returns (ok a) h

-- The two copies out of the ring, and the index that moves on.
abbrev pub take_bytes : ℕ → Vch → List ℕ × Vch
take_bytes n h =
    let r = h.read in
    (
      get_wrapped (ring_sz r) r.cbuf (r.cons % ring_sz r) n,
      record h { read = record r { cons = add32 r.cons n } },
    )

abbrev pub put_in : List ℕ → Vch → Vch
put_in bytes h =
    let r = h.write in
    record h {
      write = record r {
        cbuf = put_wrapped (ring_sz r) r.cbuf (r.prod % ring_sz r) bytes;
        prod = add32 r.prod (length bytes);
      };
    }

-- One pass of vch_read. `has_buf` says that the caller's buffer is not NULL; the bytes read stand in
-- the result, where the source returns their number.
unfoldable pub read_pass : Bool → ℕ → Vch → Pass (List ℕ)
read_pass has_buf size h =
    let avail = vch_get_rd_avail h in
    let n = min size avail in
    let (bytes, h') = take_bytes n h in
    if not (vch_is_live h)
    then returns (err enotconn) h
    else if avail == 0
    then idle [] (vch_unmask_notify vchan_notify_write h)
    else if not has_buf
    then returns (err enobufs) h
    else if leaves_ring h.read (h.read.cons % ring_sz h.read) n
    then astray
    else notified_or bytes (vch_notify vchan_notify_read h')

-- One pass of vch_write. The caller passes `size` as the number of `bytes`; the result is how many of
-- them were written.
unfoldable pub write_pass : Bool → List ℕ → Vch → Pass ℕ
write_pass has_buf bytes h =
    let avail = vch_get_wr_avail h in
    let n = min (length bytes) avail in
    if not (vch_is_live h)
    then returns (err enotconn) h
    else if avail == 0
    then idle 0 (vch_unmask_notify vchan_notify_read h)
    else if not has_buf
    then returns (err enobufs) h
    else if leaves_ring h.write (h.write.prod % ring_sz h.write) n
    then astray
    else notified_or n (vch_notify vchan_notify_write (put_in (take n bytes) h))

-- What the peer did to the shared page until the semaphore was given.
abbrev pub Wake : Type 0
Wake = Vch → Vch

-- The loop of both: after each wait one more wake-up. Where they run out the thread waits for ever.
unfoldable pub passes {ℓ} : {A : Type ℓ} → (Vch → Pass A) → List Wake → Vch → Pass A
passes pass [] h = pass h
passes pass (wake ∷ wakes) h = elim (pass h) [
  | returns r h' ↦ returns r h'
  | waits h' ↦ passes pass wakes (wake h')
  | astray ↦ astray
]

unfoldable pub vch_read : Bool → ℕ → List Wake → Vch → Pass (List ℕ)
vch_read has_buf size wakes h = passes (read_pass has_buf size) wakes h

unfoldable pub vch_write : Bool → List ℕ → List Wake → Vch → Pass ℕ
vch_write has_buf bytes wakes h = passes (write_pass has_buf bytes) wakes h
