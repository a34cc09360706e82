-- ===== src/Common/Ring/Progress.antt =====
-- xenstore_ring_write and xenstore_ring_read as operations on the queues of Common/Ring/Queue.antt.
use zephyr_xenlib.Prelude.{
  ℕ, ◌+◌, ◌-◌, ◌%◌, ◌≤◌, ◌<◌, min, ◌≡◌, refl, Bool, true, false, List, ◌++◌, arith, length, take,
  length-take, if◌then◌else◌,
}
use zephyr_xenlib.Buffer.{add32, sub32, put_bytes, get_bytes}
use zephyr_xenlib.Buffer.Window.{length-get_bytes}
use zephyr_xenlib.Errno.{ok, err, einval}
use zephyr_xenlib.Common.Ring.{
  Interface, check_indexes, get_input_offset, get_output_offset, ring_write, ring_read,
}
use zephyr_xenlib.Common.Ring.Queue.{
  IsSound, IsValid, requests, responses, queue-put, put-IsSound, queue-get, get-IsSound,
}

-- how many bytes one call writes: what fits, up to the end of the page
abbrev pub writable : ℕ → ℕ → ℕ
writable cons prod = min (1024 - prod % 1024) (1024 - sub32 prod cons)

-- how many bytes one call can read
abbrev pub readable : ℕ → ℕ → ℕ
readable cons prod = min (1024 - cons % 1024) (sub32 prod cons)

output_lem :
    {buf : List ℕ} {cons prod : ℕ}
    → IsSound buf cons prod
    → (check_indexes cons prod ≡ false)
      × ((get_output_offset cons prod).0 ≡ prod % 1024)
      × ((get_output_offset cons prod).1 ≡ writable cons prod)
unfolding check_indexes get_output_offset
output_lem s = ground (arith, s.apart)

input_lem :
    {buf : List ℕ} {cons prod : ℕ}
    → IsSound buf cons prod
    → (check_indexes cons prod ≡ false)
      × ((get_input_offset cons prod).0 ≡ cons % 1024)
      × ((get_input_offset cons prod).1 ≡ readable cons prod)
unfolding check_indexes get_input_offset
input_lem s = ground (arith, s.apart)

-- The queue that a call with this `client` flag writes to, and the one that it reads.
abbrev pub outgoing : Bool → Interface → List ℕ
outgoing client i = if client then requests i else responses i

abbrev pub incoming : Bool → Interface → List ℕ
incoming client i = if client then responses i else requests i

-- how many bytes the call takes of the `len` given
abbrev pub written : Bool → Interface → ℕ → ℕ
written true i len = min len (writable i.req_cons i.req_prod)
written false i len = min len (writable i.rsp_cons i.rsp_prod)

abbrev pub received : Bool → Interface → ℕ → ℕ
received true i len = min len (readable i.rsp_cons i.rsp_prod)
received false i len = min len (readable i.req_cons i.req_prod)

write_true :
    (i : Interface) (bytes : List ℕ)
    → IsValid i
    → let n = written true i (length bytes) in
      ring_write i bytes true ≡ (
        ok n,
        record i {
          req = put_bytes i.req (i.req_prod % 1024) (take n bytes);
          req_prod = add32 i.req_prod (length (take n bytes));
        },
      )
unfolding ring_write
write_true i bytes v =
    ground (arith, output_lem v.req_sound, length-take (written true i (length bytes)) bytes)

write_false :
    (i : Interface) (bytes : List ℕ)
    → IsValid i
    → let n = written false i (length bytes) in
      ring_write i bytes false ≡ (
        ok n,
        record i {
          rsp = put_bytes i.rsp (i.rsp_prod % 1024) (take n bytes);
          rsp_prod = add32 i.rsp_prod (length (take n bytes));
        },
      )
unfolding ring_write
write_false i bytes v =
    ground (arith, output_lem v.rsp_sound, length-take (written false i (length bytes)) bytes)

-- On a sound ring a call writes a prefix of the bytes given, as many as fit before the end of the
-- page and before the unread bytes. They are appended to the outgoing queue, the incoming queue
-- does not change, and the ring stays sound.
pub ring_write_lem :
    (client : Bool) (i : Interface) (bytes : List ℕ)
    → IsValid i
    → let n = written client i (length bytes) in
      let (r, i') = ring_write i bytes client in
      (r ≡ ok n)
      × (outgoing client i' ≡ outgoing client i ++ take n bytes)
      × (incoming client i' ≡ incoming client i)
      × IsValid i'
ring_write_lem true i bytes v = rw (write_true i bytes v) (
  refl,
  queue-put v.req_sound out fits chunk,
  refl,
  record { req_sound = put-IsSound v.req_sound out fits chunk; rsp_sound = v.rsp_sound },
)
  where
    out : List ℕ
    out = take (written true i (length bytes)) bytes

    fits : length out ≤ 1024 - sub32 i.req_prod i.req_cons
    fits = omega (arith, length-take (written true i (length bytes)) bytes)

    chunk : i.req_prod % 1024 + length out ≤ 1024
    chunk = omega (arith, length-take (written true i (length bytes)) bytes)
ring_write_lem false i bytes v = rw (write_false i bytes v) (
  refl,
  queue-put v.rsp_sound out fits chunk,
  refl,
  record { req_sound = v.req_sound; rsp_sound = put-IsSound v.rsp_sound out fits chunk },
)
  where
    out : List ℕ
    out = take (written false i (length bytes)) bytes

    fits : length out ≤ 1024 - sub32 i.rsp_prod i.rsp_cons
    fits = omega (arith, length-take (written false i (length bytes)) bytes)

    chunk : i.rsp_prod % 1024 + length out ≤ 1024
    chunk = omega (arith, length-take (written false i (length bytes)) bytes)

read_true :
    (i : Interface) (want : ℕ)
    → IsValid i
    → let n = received true i want in
      ring_read i want true
      ≡ (ok (get_bytes i.rsp (i.rsp_cons % 1024) n), record i { rsp_cons = add32 i.rsp_cons n })
unfolding ring_read
read_true i want v = ground (arith, input_lem v.rsp_sound)

read_false :
    (i : Interface) (want : ℕ)
    → IsValid i
    → let n = received false i want in
      ring_read i want false
      ≡ (ok (get_bytes i.req (i.req_cons % 1024) n), record i { req_cons = add32 i.req_cons n })
unfolding ring_read
read_false i want v = ground (arith, input_lem v.req_sound)

-- On a sound ring a call reads the first bytes of the incoming queue, as many as are wanted, up to
-- the end of the page. They leave the queue, the outgoing queue does not change, and the ring stays
-- sound.
pub ring_read_lem :
    (client : Bool) (i : Interface) (want : ℕ)
    → IsValid i
    → (got : List ℕ) × ((ring_read i want client).0 ≡ ok got)
      × (length got ≡ received client i want)
      × (incoming client i ≡ got ++ incoming client (ring_read i want client).1)
      × (outgoing client (ring_read i want client).1 ≡ outgoing client i)
      × IsValid (ring_read i want client).1
ring_read_lem true i want v = rw (read_true i want v) (
  get_bytes i.rsp (i.rsp_cons % 1024) n,
  refl,
  length-get_bytes i.rsp (i.rsp_cons % 1024) n,
  queue-get v.rsp_sound n (omega arith) (omega arith),
  refl,
  record {
    req_sound = v.req_sound;
    rsp_sound = get-IsSound v.rsp_sound n (omega arith) (omega arith);
  },
)
  where
    n : ℕ
    n = received true i want
ring_read_lem false i want v = rw (read_false i want v) (
  get_bytes i.req (i.req_cons % 1024) n,
  refl,
  length-get_bytes i.req (i.req_cons % 1024) n,
  queue-get v.req_sound n (omega arith) (omega arith),
  refl,
  record {
    rsp_sound = v.rsp_sound;
    req_sound = get-IsSound v.req_sound n (omega arith) (omega arith);
  },
)
  where
    n : ℕ
    n = received false i want

-- A call whose indices are more than a page apart changes nothing and reports it.
pub ring_write-corrupt :
    (client : Bool) (i : Interface) (bytes : List ℕ)
    → 1024 < (if client then sub32 i.req_prod i.req_cons else sub32 i.rsp_prod i.rsp_cons)
    → ring_write i bytes client ≡ (err einval, i)
unfolding ring_write check_indexes
ring_write-corrupt true i bytes h = ground arith
ring_write-corrupt false i bytes h = ground arith
