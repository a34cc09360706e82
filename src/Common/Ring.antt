-- ===== src/Common/Ring.antt =====
-- The XenStore ring of a domain (include/xen/public/io/xs_wire.h) and the transfers on it
-- (xenstore-common/src/xenstore_common.c, xenstore-common/include/xenstore_common.h). Indices are
-- uint32_t and run freely. Barriers are not modelled: one call runs between two steps of the peer.
pub mod Queue
pub mod Progress
use zephyr_xenlib.Prelude.{
  ℕ, zero, suc, ◌+◌, ◌-◌, ◌*◌, ◌/◌, ◌%◌, ◌^◌, ◌≤◌, ◌<◌, min, max, ◌≡◌, refl, sym, ap, ◌∙◌, ◌≢◌, ◌↔◌,
  ◌⊎◌, inl, inr, Bool, true, false, not, ◌&&◌, ◌||◌, Option, none, some, List, [], ◌∷◌, ◌++◌, map,
  append-nil, append_assoc, arith, ℕ_discrete, length, set, get_or, take, drop, replicate,
  length-append, length-set, get_or-set_self, get_or-set_ne, take-append-drop, length-take,
  length-drop, length-replicate, take-append, drop-append, ltb, leb, ◌==◌, if◌then◌else◌, ltb→lt,
  lt→ltb, leb→le, ==_iff, tests, Bool-cases, Option-cases, map-eq-some,
}
use zephyr_xenlib.Buffer.{add32, sub32, put_bytes, get_bytes}
use zephyr_xenlib.Errno.{Result, ok, err, einval, eio}

abbrev pub xenstore_ring_size : ℕ
xenstore_ring_size = 1024

-- struct xenstore_domain_interface
pub record Interface : Type 0 where
  pub req : List ℕ
  pub rsp : List ℕ
  pub req_cons : ℕ
  pub req_prod : ℕ
  pub rsp_cons : ℕ
  pub rsp_prod : ℕ
  pub server_features : ℕ
  pub connection : ℕ

-- idx & (XENSTORE_RING_SIZE - 1)
abbrev pub mask_xenstore_idx : ℕ → ℕ
mask_xenstore_idx idx = idx % 1024

unfoldable pub check_indexes : ℕ → ℕ → Bool
check_indexes cons prod = ltb xenstore_ring_size (sub32 prod cons)

-- The offset of the next readable chunk and its length.
unfoldable pub get_input_offset : ℕ → ℕ → ℕ × ℕ
get_input_offset cons prod =
    let delta = sub32 prod cons in
    let len = xenstore_ring_size - mask_xenstore_idx cons in
    (mask_xenstore_idx cons, if ltb delta len then delta else len)

-- The offset of the next writable chunk and its length.
unfoldable pub get_output_offset : ℕ → ℕ → ℕ × ℕ
get_output_offset cons prod =
    let free_space = sub32 xenstore_ring_size (sub32 prod cons) in
    let len = xenstore_ring_size - mask_xenstore_idx prod in
    (mask_xenstore_idx prod, if ltb free_space len then free_space else len)

-- Where `data` is written, and the producer index moves on by what fits.
produce : Bool → Interface → List ℕ → ℕ → ℕ → Interface
produce true intf bytes off len = record intf {
  req = put_bytes intf.req off (take len bytes);
  req_prod = add32 intf.req_prod len;
}
produce false intf bytes off len = record intf {
  rsp = put_bytes intf.rsp off (take len bytes);
  rsp_prod = add32 intf.rsp_prod len;
}

-- The caller passes `len` as the size of `bytes`.
pub ring_write : Interface → List ℕ → Bool → Result ℕ × Interface
unfolding produce
ring_write intf bytes client =
    let cons = if client then intf.req_cons else intf.rsp_cons in
    let prod = if client then intf.req_prod else intf.rsp_prod in
    let (off, avail) = get_output_offset cons prod in
    let len = if ltb avail (length bytes) then avail else length bytes in
    if check_indexes cons prod
    then (err einval, intf)
    else (ok len, produce client intf bytes off len)

-- The consumer index moves on.
consume : Bool → Interface → ℕ → Interface
consume true intf len = record intf { rsp_cons = add32 intf.rsp_cons len }
consume false intf len = record intf { req_cons = add32 intf.req_cons len }

-- The bytes read stand in the result; the source returns their number and copies them to `data`.
pub ring_read : Interface → ℕ → Bool → Result (List ℕ) × Interface
unfolding consume
ring_read intf want client =
    let cons = if client then intf.rsp_cons else intf.req_cons in
    let prod = if client then intf.rsp_prod else intf.req_prod in
    let (off, avail) = get_input_offset cons prod in
    let len = if ltb avail want then avail else want in
    let src = if client then intf.rsp else intf.req in
    if check_indexes cons prod
    then (err eio, intf)
    else (ok (get_bytes src off len), consume client intf len)
