-- ===== src/Server/Input.antt =====
-- Requests: message_handle_list, process_message, handle_input, and one turn of the loop of
-- xenstore_evt_thrd.
pub mod Words
pub mod Partial
pub mod Replied
pub mod Assembled
pub mod Stuck
mod Tests
use mathlib.Core.Option
use zephyr_xenlib.Prelude.{
  ℕ, zero, suc, ◌+◌, ◌-◌, ◌*◌, ◌/◌, ◌%◌, ◌^◌, ◌≤◌, ◌<◌, min, max, ◌≡◌, refl, sym, ap, ◌∙◌, ◌≢◌, ◌↔◌,
  ◌⊎◌, inl, inr, Bool, true, false, not, ◌&&◌, ◌||◌, Option, none, some, List, [], ◌∷◌, ◌++◌, map,
  append-nil, append_assoc, arith, ℕ_discrete, length, set, get_or, take, drop, replicate,
  length-append, length-set, get_or-set_self, get_or-set_ne, take-append-drop, length-take,
  length-drop, length-replicate, take-append, drop-append, ltb, leb, ◌==◌, if◌then◌else◌, ltb→lt,
  lt→ltb, leb→le, ==_iff, tests, Bool-cases, Option-cases, map-eq-some,
}
use zephyr_xenlib.Errno.{ok, err, enomem, enosys}
use zephyr_xenlib.Common.Ring.{ring_read}
use zephyr_xenlib.Store.Alloc.{k_malloc}
use zephyr_xenlib.Server.State.{
  Server, InBuffer, xenstore_payload_max, invalidate_client, send_errno, send_reply, can_read,
  drain,
}
use zephyr_xenlib.Server.State.Stream.{left}
use zephyr_xenlib.Server.Watch.Events.{process_pending_watch_events}
use zephyr_xenlib.Server.Handlers.{
  handle_directory, handle_read, handle_get_perms, handle_control, handle_transaction_start,
  handle_transaction_stop, handle_reset_watches,
}
use zephyr_xenlib.Server.Handlers.Change.{
  handle_write, handle_mkdir, handle_rm, handle_get_domain_path,
}
use zephyr_xenlib.Server.Handlers.SetPerms.{handle_set_perms}
use zephyr_xenlib.Server.Handlers.Watches.{handle_watch, handle_unwatch}

-- A handler gets the request's id and the payload.
abbrev pub Handler : Type 0
Handler = ℕ → List ℕ → Server → Option Server

-- A handler that always runs to its end.
abbrev pub always : (ℕ → List ℕ → Server → Server) → Handler
always h id payload s = some (h id payload s)

-- By the type of the message, from XS_CONTROL to XS_RESET_WATCHES; NULL from there to XS_TYPE_COUNT.
unfoldable pub message_handle_list : List (Option Handler)
message_handle_list =
    some (always handle_control)
    ∷ some handle_directory
    ∷ some handle_read
    ∷ some handle_get_perms
    ∷ some handle_watch
    ∷ some handle_unwatch
    ∷ some handle_transaction_start
    ∷ some (always handle_transaction_stop)
    ∷ none
    ∷ none
    ∷ some (always handle_get_domain_path)
    ∷ some handle_write
    ∷ some handle_mkdir
    ∷ some handle_rm
    ∷ some handle_set_perms
    ∷ none
    ∷ none
    ∷ none
    ∷ none
    ∷ none
    ∷ none
    ∷ some handle_reset_watches
    ∷ []

-- NULL, or past the end: there is no handler.
unfoldable pub handler_at : List (Option Handler) → ℕ → Option Handler
handler_at [] n = none
handler_at (h ∷ hs) zero = h
handler_at (h ∷ hs) (suc n) = handler_at hs n

-- The uint32_t at an offset.
unfoldable pub word_at : List ℕ → ℕ → ℕ
word_at bs off =
    get_or bs off 0
    + 256 * get_or bs (off + 1) 0
    + 65536 * get_or bs (off + 2) 0
    + 16777216 * get_or bs (off + 3) 0

abbrev pub header_size : ℕ
header_size = 16

-- After the handler the request is freed.
abbrev pub finish : Server → Server
finish s = record s { inbuf = none }

-- The request whose bytes are `message`. Without a handler it stays in `in`.
unfoldable pub process_message : List ℕ → Server → Option Server
process_message message s = elim (handler_at message_handle_list (word_at message 0)) [
  | none ↦ some (send_errno 0 enosys s)
  | some h ↦ Option.map finish (h (word_at message 4) (drop header_size message) s)
]

-- What one call of handle_input does before the message is processed.
pub data Received : Type 0 where
  -- a read from NULL, or a write near it
  fault : Received
  -- it returns: the connection is invalid, the rest is to come, or the message is dropped
  returned : Server → Received
  -- a whole message, which stands in `in` too
  complete : List ℕ → Server → Received

abbrev pub alloc_err : Server → Received
alloc_err s = returned (invalidate_client enomem s)

abbrev pub with_more : InBuffer → List ℕ → InBuffer
with_more b more = record b { got = b.got ++ more }

-- Bytes go to an address of the first page. To NULL itself ring_read copies nothing.
abbrev pub near_null : InBuffer → Bool
near_null b = not b.allocated && not (length b.got == 0)

-- ring_read into the buffer, behind what is there. Where the buffer is NULL and nothing is read yet, the
-- bytes are gone, and only their number is kept.
unfoldable pub read_more : ℕ → InBuffer → (InBuffer → Server → Received) → Server → Received
read_more want b next s =
    let (r, intf) = ring_read s.domint want false in
    let s' = record s { domint = intf } in
    elim r [
      | err e ↦ returned (invalidate_client e s')
      | ok more ↦
          let s1 = record s' { inbuf = some (with_more b more) } in
          if near_null b then fault else next (with_more b more) s1
    ]

abbrev pub payload_read : InBuffer → Server → Received
payload_read b s = if length b.got == b.total_size then complete b.got s else returned s

unfoldable pub receive_payload : InBuffer → Server → Received
receive_payload b s = read_more (b.total_size - length b.got) b payload_read s

-- Once the header is there, the buffer is replaced by one for the whole message.
unfoldable pub header_read : InBuffer → Server → Received
header_read b s =
    let len = word_at b.got 12 in
    let (got_memory, mem') = k_malloc s.mem in
    let grown = record b { total_size = b.total_size + len; allocated = got_memory } in
    let s' = record s { mem = mem'; inbuf = some grown } in
    if not (length b.got == header_size)
    then returned s
    else if not b.allocated
    then fault
    else if ltb xenstore_payload_max len
    then returned (record s { inbuf = none })
    else if not got_memory
    then alloc_err s'
    else receive_payload grown s'

unfoldable pub receive_from : InBuffer → Server → Received
receive_from b s =
    if ltb (length b.got) header_size
    then read_more (header_size - length b.got) b header_read s
    else receive_payload b s

abbrev pub new_input : Bool → InBuffer
new_input allocated = record { got = []; total_size = header_size; allocated = allocated }

-- The request that is being read, or a new one.
abbrev pub receive_for : Option InBuffer → Server → Received
receive_for (some b) s = receive_from b s
receive_for none s =
    let (got1, mem1) = k_malloc s.mem in
    let (got2, mem2) = k_malloc mem1 in
    if not got1
    then alloc_err (record s { mem = mem1 })
    else if not got2
    then alloc_err (record s { mem = mem2; inbuf = some (new_input false) })
    else receive_from (new_input true) (record s { mem = mem2; inbuf = some (new_input true) })

unfoldable pub receive : Server → Received
receive s = receive_for s.inbuf s

abbrev pub process_received : Received → Option Server
process_received fault = none
process_received (returned s) = some s
process_received (complete message s) = process_message message s

unfoldable pub handle_input : Server → Option Server
handle_input s = process_received (receive s)

abbrev pub xs_transaction_end : ℕ
xs_transaction_end = 7

-- The reply to XS_TRANSACTION_END.
unfoldable pub end_transaction : Server → Server
end_transaction s =
    if s.pending_stop_transaction
    then record (send_reply s.stop_transaction_id xs_transaction_end [] s) {
      stop_transaction_id = 0;
      pending_stop_transaction = false;
    }
    else s

unfoldable pub send_events : Server → Option Server
send_events s = if s.running_transaction == 0 then process_pending_watch_events s else some s

unfoldable pub take_input : Server → Option Server
take_input s = if can_read s then handle_input s else some s

-- One turn of the loop, less the wait: up to its last loop, and all of it. `left` is enough fuel for
-- the output.
unfoldable pub wake_up : Server → Option Server
wake_up s = elim (send_events (end_transaction s)) [ none ↦ none | some s1 ↦ take_input s1 ]

abbrev pub drain_all : Server → Server
drain_all s = drain (left s) s

unfoldable pub turn : Server → Option Server
turn s = Option.map drain_all (wake_up s)
