-- ===== src/Server/State.antt =====
-- struct xenstore with the buffers of a connection, the shared state, and the replies: send_reply_sz,
-- send_reply, send_reply_read, send_errno, handle_output.
pub mod Stream
pub mod Reply
pub mod Untouched
use zephyr_xenlib.Prelude.{
  ℕ, zero, suc, ◌+◌, ◌-◌, ◌*◌, ◌/◌, ◌%◌, ◌^◌, ◌≤◌, ◌<◌, min, max, ◌≡◌, refl, sym, ap, ◌∙◌, ◌≢◌, ◌↔◌,
  ◌⊎◌, inl, inr, Bool, true, false, not, ◌&&◌, ◌||◌, Option, none, some, List, [], ◌∷◌, ◌++◌, map,
  append-nil, append_assoc, arith, ℕ_discrete, length, set, get_or, take, drop, replicate,
  length-append, length-set, get_or-set_self, get_or-set_ne, take-append-drop, length-take,
  length-drop, length-replicate, take-append, drop-append, ltb, leb, ◌==◌, if◌then◌else◌, ltb→lt,
  lt→ltb, leb→le, ==_iff, tests, Bool-cases, Option-cases, map-eq-some,
}
use zephyr_xenlib.Errno.{Errno, Result, ok, err, eio, e2big}
use zephyr_xenlib.Common.Errors.{error_string}
use zephyr_xenlib.Common.Ring.{Interface, xenstore_ring_size, ring_write}
use zephyr_xenlib.Buffer.{sub32}
use zephyr_xenlib.Store.Alloc.{Mem, k_malloc}
use zephyr_xenlib.Store.Tree.{Entry}

-- struct watch_entry. `linked` says that it is on watch_entry_list, and `ref` is the count of its
-- sys_ref, 0 once it is freed. `domain` is the domain's id, or `none` for a client in the server's
-- own domain.
pub record Watch : Type 0 where
  pub path : List ℕ
  pub token : List ℕ
  pub domain : Option ℕ
  pub is_relative : Bool
  pub linked : Bool
  pub ref : ℕ

-- struct pending_watch_event_entry, and an event on its way to a callback. `watch` is the place in
-- `watches`, which stands for the pointer.
pub record PendingEvent : Type 0 where
  pub event_path : List ℕ
  pub watch : ℕ

-- What is left to write of a struct buffered_data: the bytes of `buffer` from `used` on.
abbrev pub OutBuffer : Type 0
OutBuffer = List ℕ

-- struct buffered_data of the request that is being read: the bytes read so far, `used` of them.
-- `allocated` says that `buffer` is not NULL.
pub record InBuffer : Type 0 where
  pub got : List ℕ
  pub total_size : ℕ
  pub allocated : Bool

-- A connection, and what the server shares between the connections.
pub record Server : Type 0 where
  pub domid : ℕ
  pub inbuf : Option InBuffer
  pub out_list : List OutBuffer
  pub used_out_bufs : ℕ
  pub domint : Interface
  pub transaction : ℕ
  pub running_transaction : ℕ
  pub stop_transaction_id : ℕ
  pub pending_stop_transaction : Bool
  -- invalidate_client was called: the connection is torn down, which is not modelled
  pub invalidated : Option Errno
  -- what the stack holds where the header's `tx_id`, which no code sets, is read
  pub stack_word : ℕ
  pub mem : Mem
  pub root : Entry
  -- all watches ever made, in the order of watch_entry_list
  pub watches : List Watch
  -- pending_watch_event_list
  pub pending : List PendingEvent
  -- the list that is dispatched to callbacks in the server's own domain
  pub local_events : List PendingEvent
  -- what the coming calls of xss_mutex_lock_deadline return; past the end they get the lock
  pub locks : List (Result (Unit {0}))

abbrev pub xenstore_max_out_buf_num : ℕ
xenstore_max_out_buf_num = 100

abbrev pub xenstore_payload_max : ℕ
xenstore_payload_max = 4096

-- A uint32_t in memory, least byte first.
unfoldable pub le32 : ℕ → List ℕ
le32 n = n % 256 ∷ n / 256 % 256 ∷ n / 65536 % 256 ∷ n / 16777216 % 256 ∷ []

-- struct xsd_sockmsg
pub record SockMsg : Type 0 where
  pub type : ℕ
  pub req_id : ℕ
  pub tx_id : ℕ
  pub len : ℕ

unfoldable pub encode_header : SockMsg → List ℕ
unfolding le32
encode_header h = le32 h.type ++ (le32 h.req_id ++ (le32 h.tx_id ++ le32 h.len))

unfoldable pub invalidate_client : Errno → Server → Server
invalidate_client e s = record s { invalidated = some e }

-- The reply's header: `tx_id` is left as it is.
abbrev pub reply_header : ℕ → ℕ → List ℕ → Server → SockMsg
reply_header req_id type payload s = record {
  type = type;
  req_id = req_id;
  tx_id = s.stack_word;
  len = length payload;
}

-- The two allocations, and the new buffer at the end of `out_list`.
abbrev pub enqueue_message : List ℕ → Server → Server
enqueue_message message s =
    let (got1, mem1) = k_malloc s.mem in
    let (got2, mem2) = k_malloc mem1 in
    if not got1
    then record s { mem = mem1 }
    else if not got2
    then record s { mem = mem2 }
    else record s {
      mem = mem2;
      out_list = s.out_list ++ message ∷ [];
      used_out_bufs = s.used_out_bufs + 1;
    }

abbrev pub xs_error : ℕ
xs_error = 16

-- send_reply_sz for a payload within the size limit
unfoldable pub send_short : ℕ → ℕ → List ℕ → Server → Server
send_short req_id type payload s =
    if ltb xenstore_max_out_buf_num s.used_out_bufs
    then invalidate_client eio s
    else enqueue_message (encode_header (reply_header req_id type payload s) ++ payload) s

-- send_reply: the text with its NUL. The texts of error codes are short.
unfoldable pub send_errno : ℕ → Errno → Server → Server
send_errno req_id e s = send_short req_id xs_error (error_string e ++ 0 ∷ []) s

unfoldable pub send_reply_sz : ℕ → ℕ → List ℕ → Server → Server
send_reply_sz req_id type payload s =
    if ltb xenstore_max_out_buf_num s.used_out_bufs
    then invalidate_client eio s
    else if ltb xenstore_payload_max (length payload)
    then send_errno req_id e2big s
    else send_short req_id type payload s

-- The text with its NUL, and without it.
unfoldable pub send_reply : ℕ → ℕ → List ℕ → Server → Server
send_reply req_id type text s = send_reply_sz req_id type (text ++ 0 ∷ []) s

unfoldable pub send_reply_read : ℕ → ℕ → List ℕ → Server → Server
send_reply_read req_id type text s = send_reply_sz req_id type text s

-- After a write of `n` bytes of the first buffer; a buffer that is written out is freed.
abbrev pub wrote : List ℕ → List OutBuffer → ℕ → Interface → Server → Server
wrote out rest n intf s =
    if ltb n (length out)
    then record s { domint = intf; out_list = drop n out ∷ rest }
    else record s { domint = intf; out_list = rest; used_out_bufs = s.used_out_bufs - 1 }

-- The event channel is notified too, which wakes the peer and changes nothing here.
write_first : List OutBuffer → Server → Server
unfolding invalidate_client
write_first [] s = s
write_first (out ∷ rest) s =
    let (r, intf) = ring_write s.domint out false in
    elim r [ ok n ↦ wrote out rest n intf s | err e ↦ invalidate_client e s ]

unfoldable pub handle_output : Server → Server
unfolding write_first
handle_output s = write_first s.out_list s

unfoldable pub can_write : Server → Bool
can_write s =
    not (leb (length s.out_list) 0)
    && ltb (sub32 s.domint.rsp_prod s.domint.rsp_cons) xenstore_ring_size

unfoldable pub can_read : Server → Bool
can_read s = not (s.domint.req_prod == s.domint.req_cons)

-- while (can_write(xenstore)) handle_output(xenstore), with fuel
unfoldable pub drain : ℕ → Server → Server
drain zero s = s
drain (suc fuel) s = elim (can_write s) [ true ↦ drain fuel (handle_output s) | false ↦ s ]
