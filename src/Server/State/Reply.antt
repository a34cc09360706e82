-- ===== src/Server/State/Reply.antt =====
-- What send_reply_sz does to the stream of bytes that the client is to read.
use mathlib.Core.Path.{subst}
use zephyr_xenlib.Prelude.{
  ℕ, ◌+◌, ◌≤◌, ◌<◌, ◌≡◌, refl, sym, ap, ◌∙◌, ◌⊎◌, inl, inr, false, List, [], ◌∷◌, ◌++◌,
  append_assoc, arith, length, length-append, ltb, if◌then◌else◌, Bool-cases,
}
use zephyr_xenlib.Common.Ring.Queue.{responses}
use zephyr_xenlib.Store.Alloc.{k_malloc}
use zephyr_xenlib.Server.State.{
  e2big, eio, error_string, Errno, xs_error, xenstore_max_out_buf_num, send_errno, Mem,
  invalidate_client, xenstore_payload_max, send_short, send_reply_sz, Server, OutBuffer,
  encode_header, reply_header, enqueue_message, le32,
}
use zephyr_xenlib.Server.State.Stream.{joined, joined-append, stream, IsReady, NoneEmpty}

length-le32 : (n : ℕ) → length (le32 n) ≡ 4
unfolding le32
length-le32 n = refl

abbrev pub message_of : ℕ → ℕ → List ℕ → Server → List ℕ
message_of req_id type payload s = encode_header (reply_header req_id type payload s) ++ payload

message-filled :
    (req_id type : ℕ) (payload : List ℕ) (s : Server)
    → 0 < length (message_of req_id type payload s)
unfolding encode_header le32
message-filled req_id type payload s = omega arith

NoneEmpty-append :
    (bs : List OutBuffer) (b : OutBuffer) → NoneEmpty bs → 0 < length b → NoneEmpty (bs ++ b ∷ [])
NoneEmpty-append [] b f p = (p, tt)
NoneEmpty-append (c ∷ bs) b f p = (f.0, NoneEmpty-append bs b f.1 p)

-- a message is added, or only memory is asked for
enqueue_cases :
    (message : List ℕ) (s : Server)
    → let s' = enqueue_message message s in
      (s' ≡ record s { mem = s'.mem })
      ⊎ (s' ≡ record s {
        mem = s'.mem;
        out_list = s.out_list ++ message ∷ [];
        used_out_bufs = s.used_out_bufs + 1;
      })
enqueue_cases message s = elim (Bool-cases (k_malloc s.mem).0) [
  | inr failed ↦ inl (rw failed refl)
  | inl got ↦ elim (Bool-cases (k_malloc (k_malloc s.mem).1).0) [
    | inr failed ↦ inl (rw (got, failed) refl)
    | inl got2 ↦ inr (rw (got, got2) refl)
  ]
]

pub IsReady-mem : (s : Server) (m : Mem) → IsReady s → IsReady (record s { mem = m })
IsReady-mem s m r = record { ring = r.ring; counted = r.counted; filled = r.filled }

pub IsReady-invalidate : (e : Errno) (s : Server) → IsReady s → IsReady (invalidate_client e s)
unfolding invalidate_client
IsReady-invalidate e s r = record { ring = r.ring; counted = r.counted; filled = r.filled }

-- The stream keeps its bytes, and gets one whole message more or none.
abbrev pub Sent : ℕ → ℕ → List ℕ → Server → Server → Type 0
Sent req_id type payload s s' =
    (stream s' ≡ stream s) ⊎ (stream s' ≡ stream s ++ message_of req_id type payload s)

enqueue_lem :
    (req_id type : ℕ) (payload : List ℕ) (s : Server)
    → IsReady s
    → let s' = enqueue_message (message_of req_id type payload s) s in
      IsReady s' × Sent req_id type payload s s'
enqueue_lem req_id type payload s r = elim (enqueue_cases message s) [
  | inl same ↦ (
    subst IsReady (sym same) (IsReady-mem s (enqueue_message message s).mem r),
    inl (ap stream same),
  )
  | inr more ↦ (
    subst IsReady (sym more) (record {
      ring = r.ring;
      counted = omega (arith, r.counted, length-append s.out_list (message ∷ []));
      filled = NoneEmpty-append s.out_list message r.filled (message-filled req_id type payload s);
    }),
    inr (
        ap stream more
        ∙ ap (λ x. responses s.domint ++ x) (joined-append s.out_list message)
        ∙ sym (append_assoc (responses s.domint) (joined s.out_list) message)),
  )
]
  where
    message : List ℕ
    message = message_of req_id type payload s

send_short_lem :
    (req_id type : ℕ) (payload : List ℕ) (s : Server)
    → IsReady s
    → let s' = send_short req_id type payload s in IsReady s' × Sent req_id type payload s s'
unfolding send_short invalidate_client
send_short_lem req_id type payload s r =
    elim (Bool-cases (ltb xenstore_max_out_buf_num s.used_out_bufs)) [
      | inl many ↦ rw many (IsReady-invalidate eio s r, inl refl)
      | inr few ↦ rw few (enqueue_lem req_id type payload s r)
    ]

pub send_errno_lem :
    (req_id : ℕ) (e : Errno) (s : Server)
    → IsReady s
    → let s' = send_errno req_id e s in
      IsReady s' × Sent req_id xs_error (error_string e ++ 0 ∷ []) s s'
unfolding send_errno
send_errno_lem req_id e s r = send_short_lem req_id xs_error (error_string e ++ 0 ∷ []) s r

-- What send_reply_sz may send: the payload given, or the error for one that is too long.
abbrev pub sendable : ℕ → List ℕ → ℕ × List ℕ
sendable type payload =
    if ltb xenstore_payload_max (length payload)
    then (xs_error, error_string e2big ++ 0 ∷ [])
    else (type, payload)

-- send_reply_sz, for any state of memory and any number of waiting buffers: the output stays sound,
-- and what the client is to read is as before or gets one whole message at its end. The message has
-- the payload, or the text of E2BIG for a payload over the limit. The teardown of a client that is
-- invalidated comes after it and is not part of the statement.
pub send_reply_sz_lem :
    (req_id type : ℕ) (payload : List ℕ) (s : Server)
    → IsReady s
    → let s' = send_reply_sz req_id type payload s in
      let (type', payload') = sendable type payload in IsReady s' × Sent req_id type' payload' s s'
unfolding send_reply_sz invalidate_client
send_reply_sz_lem req_id type payload s r =
    elim (Bool-cases (ltb xenstore_max_out_buf_num s.used_out_bufs)) [
      | inl many ↦ rw many (IsReady-invalidate eio s r, inl refl)
      | inr few ↦ rw few (elim (Bool-cases (ltb xenstore_payload_max (length payload))) [
        | inl long ↦ rw long (send_errno_lem req_id e2big s r)
        | inr short ↦ rw short (send_short_lem req_id type payload s r)
      ])
    ]

-- Where memory lasts and no more than 100 buffers wait, send_reply_sz of a payload within the limit
-- puts exactly that message at the end of the stream, and the client is not invalidated.
pub send_reply_sz-plenty :
    (req_id type : ℕ) (payload : List ℕ) (s : Server)
    → s.mem ≡ []
    → s.used_out_bufs ≤ xenstore_max_out_buf_num
    → length payload ≤ xenstore_payload_max
    → let s' = send_reply_sz req_id type payload s in
      (stream s' ≡ stream s ++ message_of req_id type payload s)
      × (s'.invalidated ≡ s.invalidated)
      × (s'.used_out_bufs ≡ s.used_out_bufs + 1)
unfolding send_reply_sz send_short
send_reply_sz-plenty req_id type payload s m few short =
    rw (no_excess s.used_out_bufs few, no_excess (length payload) short, m)
      (
        ap (λ x. responses s.domint ++ x)
              (joined-append s.out_list (message_of req_id type payload s))
            ∙ sym (
                append_assoc (responses s.domint) (joined s.out_list)
                  (message_of req_id type payload s)),
        refl,
        refl,
      )
  where
    no_excess : {k : ℕ} (n : ℕ) → n ≤ k → ltb k n ≡ false
    no_excess n h = ground arith

pub send_errno-plenty :
    (req_id : ℕ) (e : Errno) (s : Server)
    → s.mem ≡ []
    → s.used_out_bufs ≤ xenstore_max_out_buf_num
    → stream (send_errno req_id e s)
      ≡ stream s ++ message_of req_id xs_error (error_string e ++ 0 ∷ []) s
unfolding send_errno send_short
send_errno-plenty req_id e s m few =
    let room : ltb xenstore_max_out_buf_num s.used_out_bufs ≡ false = ground arith in
    rw (room, m)
      (ap (λ x. responses s.domint ++ x) (joined-append s.out_list message)
        ∙ sym (append_assoc (responses s.domint) (joined s.out_list) message))
  where
    message : List ℕ
    message = message_of req_id xs_error (error_string e ++ 0 ∷ []) s
