-- ===== src/Server/Input/Replied.antt =====
-- A reply, read as process_message reads a message.
use zephyr_xenlib.Common.Ring.Queue.{responses}
use zephyr_xenlib.Common.Errors.{error_string}
use zephyr_xenlib.Server.State.{
  xenstore_payload_max, xenstore_max_out_buf_num, Server, send_short, le32, send_errno,
  send_reply_sz, encode_header,
}
use zephyr_xenlib.Server.State.Reply.{message_of, sendable}
use zephyr_xenlib.Server.State.Stream.{joined, joined-append, stream}
use zephyr_xenlib.Server.Input.{word_at, header_size}
use zephyr_xenlib.Prelude.{
  ℕ, ◌+◌, ◌*◌, ◌/◌, ◌%◌, ◌≤◌, ◌<◌, ◌≡◌, refl, sym, ap, ◌∙◌, inl, inr, false, List, [], ◌++◌,
  append_assoc, arith, length, drop, ltb, Bool-cases,
}

-- The message has this type, id and payload, by the words of its header and by what stands behind it.
pub record Says (type req_id : ℕ) (payload message : List ℕ) : Type 0 where
  pub type_is : word_at message 0 ≡ type
  pub id_is : word_at message 4 ≡ req_id
  pub len_is : word_at message 12 ≡ length payload
  pub payload_is : drop header_size message ≡ payload

-- The bytes of a uint32_t, least first.
word_of_bytes :
    (n : ℕ)
    → n < 4294967296
    → n % 256 + 256 * (n / 256 % 256) + 65536 * (n / 65536 % 256) + 16777216 * (n / 16777216 % 256)
      ≡ n
word_of_bytes n h = omega arith

message_of-Says :
    (type req_id : ℕ) (payload : List ℕ) (s : Server)
    → type < 4294967296
    → req_id < 4294967296
    → length payload < 4294967296
    → Says type req_id payload (message_of req_id type payload s)
unfolding word_at encode_header le32
message_of-Says type req_id payload s t i l = record {
  type_is = word_of_bytes type t;
  id_is = word_of_bytes req_id i;
  len_is = word_of_bytes (length payload) l;
  payload_is = refl;
}

-- While no more than 100 buffers wait, what may be sent is sent as a short message.
send_reply_sz_short :
    (req_id type : ℕ) (payload : List ℕ) (s : Server)
    → s.used_out_bufs ≤ xenstore_max_out_buf_num
    → let (type', payload') = sendable type payload in
      send_reply_sz req_id type payload s ≡ send_short req_id type' payload' s
unfolding send_reply_sz send_errno
send_reply_sz_short req_id type payload s few =
    let room : ltb xenstore_max_out_buf_num s.used_out_bufs ≡ false = ground (arith, few) in
    elim (Bool-cases (ltb xenstore_payload_max (length payload))) [
      | inl long ↦ rw (room, long) refl
      | inr short ↦ rw (room, short) refl
    ]

send_short_plenty :
    (req_id type : ℕ) (payload : List ℕ) (s : Server)
    → s.mem ≡ []
    → s.used_out_bufs ≤ xenstore_max_out_buf_num
    → let s' = send_short req_id type payload s in
      (stream s' ≡ stream s ++ message_of req_id type payload s) × (s'.invalidated ≡ s.invalidated)
unfolding send_short
send_short_plenty req_id type payload s plenty few =
    let room : ltb xenstore_max_out_buf_num s.used_out_bufs ≡ false = ground (arith, few) in
    let message : List ℕ = message_of req_id type payload s in
    rw (room, plenty)
      (
        ap (λ x. responses s.domint ++ x) (joined-append s.out_list message)
            ∙ sym (append_assoc (responses s.domint) (joined s.out_list) message),
        refl,
      )

type_fits :
    (type : ℕ) (payload : List ℕ) → type < 4294967296 → (sendable type payload).0 < 4294967296
type_fits type payload t = elim (Bool-cases (ltb xenstore_payload_max (length payload))) [
  | inl long ↦ rw long (omega arith)
  | inr short ↦ rw short t
]

payload_fits : (type : ℕ) (payload : List ℕ) → length (sendable type payload).1 < 4294967296
unfolding error_string
payload_fits type payload = elim (Bool-cases (ltb xenstore_payload_max (length payload))) [
  | inl long ↦ rw long (omega arith)
  | inr short ↦ rw short (ground (arith, short))
]

-- send_reply_sz where memory lasts and no more than 100 buffers wait, with a type and an id of 32 bits:
-- one message is put at the end of what the client is to read, and the client is not invalidated. Read
-- as process_message reads a message, it has the id, the type and the payload given, or, for a payload
-- over the limit, the type XS_ERROR and the text of E2BIG; the length in its header is that of the
-- payload.
pub send_reply_sz-word_at :
    (req_id type : ℕ) (payload : List ℕ) (s : Server)
    → s.mem ≡ []
    → s.used_out_bufs ≤ xenstore_max_out_buf_num
    → type < 4294967296
    → req_id < 4294967296
    → let s' = send_reply_sz req_id type payload s in
      let (type', payload') = sendable type payload in
      (message : List ℕ) × (stream s' ≡ stream s ++ message)
      × Says type' req_id payload' message
      × (s'.invalidated ≡ s.invalidated)
send_reply_sz-word_at req_id type payload s plenty few t i =
    let (type', payload') = sendable type payload in
    let (bytes_are, alive) = send_short_plenty req_id type' payload' s plenty few in
    let same = send_reply_sz_short req_id type payload s few in
    (
      message_of req_id type' payload' s,
      ap stream same ∙ bytes_are,
      message_of-Says type' req_id payload' s (type_fits type payload t) i
          (payload_fits type payload),
      ap (λ (x : Server). x.invalidated) same ∙ alive,
    )
