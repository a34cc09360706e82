-- ===== src/Server/Keeps/Turn.antt =====
-- handle_input and a turn of the loop keep what the small operations keep.

use zephyr_xenlib.Server.Keeps.Changes.{rm-Keeps, mkdir-Keeps, write-Keeps}
use zephyr_xenlib.Server.Keeps.Settings.{set_perms-Keeps, unwatch-Keeps, watch-Keeps}
use zephyr_xenlib.Server.Keeps.Receive.{receive-Keeps, Leaves}
use zephyr_xenlib.Server.State.Stream.{left}
use zephyr_xenlib.Server.Watch.Counted.{Holds-map, Holds}
use zephyr_xenlib.Server.Keeps.Replies.{
  reset-Keeps, domain_path-Keeps, stop-Keeps, start-Keeps, get_perms-Keeps, read-Keeps,
  directory-Keeps, control-Keeps,
}
use zephyr_xenlib.Errno.{enosys}
use zephyr_xenlib.Server.Input.{
  wake_up, drain_all, header_size, word_at, finish, fault, returned, complete, receive, complete,
  returned, process_received, xs_transaction_end, Received, process_message, Handler, turn,
  end_transaction, handler_at, send_events, handle_input, message_handle_list, take_input,
}
use zephyr_xenlib.Server.State.{
  can_read, handle_output, send_reply_sz, send_errno, can_write, send_reply, drain, Server,
}
use mathlib.Core.Option
use zephyr_xenlib.Prelude.{
  ℕ, zero, suc, inl, inr, Bool, true, false, Option, none, some, List, [], ◌∷◌, drop, ◌==◌,
  if◌then◌else◌, Bool-cases,
}
use zephyr_xenlib.Server.Keeps.{Keeps}

-- A handler keeps it, and each handler of a list does.
abbrev Kept : (Server → Type 0) → Handler → Type 0
Kept P h = (id : ℕ) (payload : List ℕ) (s : Server) → P s → Holds P (h id payload s)

infixr 3 ◌▸◌
data AllKept (P : Server → Type 0) : List (Option Handler) → Type 0 where
  finished : AllKept P []
  gap : {hs : List (Option Handler)} → AllKept P hs → AllKept P (none ∷ hs)
  ◌▸◌ :
      {h : Handler} {hs : List (Option Handler)} → Kept P h → AllKept P hs → AllKept P (some h ∷ hs)

abbrev Found : (Server → Type 0) → Option Handler → Type 0
Found P none = Unit
Found P (some h) = Kept P h

module _ (P : Server → Type 0) where
  handler_at-Found : (hs : List (Option Handler)) (n : ℕ) → AllKept P hs → Found P (handler_at hs n)
  unfolding handler_at
  handler_at-Found [] n all = tt
  handler_at-Found (none ∷ hs) zero all = tt
  handler_at-Found (none ∷ hs) (suc n) (gap all) = handler_at-Found hs n all
  handler_at-Found (some h ∷ hs) zero (first ▸ all) = first
  handler_at-Found (some h ∷ hs) (suc n) (first ▸ all) = handler_at-Found hs n all

module _ (P : Server → Type 0) (k : Keeps P) where
  message_handle_list-Keeps : AllKept P message_handle_list
  unfolding message_handle_list
  message_handle_list-Keeps =
      control-Keeps P k
      ▸ directory-Keeps P k
      ▸ read-Keeps P k
      ▸ get_perms-Keeps P k
      ▸ watch-Keeps P k
      ▸ unwatch-Keeps P k
      ▸ start-Keeps P k
      ▸ stop-Keeps P k
      ▸ gap (
          gap (
            domain_path-Keeps P k
            ▸ write-Keeps P k
            ▸ mkdir-Keeps P k
            ▸ rm-Keeps P k
            ▸ set_perms-Keeps P k
            ▸ gap (gap (gap (gap (gap (gap (reset-Keeps P k ▸ finished))))))))

  pub process_message-Keeps :
      (message : List ℕ) (s : Server) → P s → Holds P (process_message message s)
  unfolding process_message
  process_message-Keeps message s p =
      go (handler_at message_handle_list (word_at message 0))
        (handler_at-Found P message_handle_list (word_at message 0) message_handle_list-Keeps)
    where
      go :
          (o : Option Handler)
          → Found P o
          → Holds P (elim o [
            | none ↦ some (send_errno 0 enosys s)
            | some h ↦ Option.map finish (h (word_at message 4) (drop header_size message) s)
          ])
      go none found = k.refused 0 enosys s p
      go (some h) found =
          Holds-map P P finish (h (word_at message 4) (drop header_size message) s)
            (λ s1. k.input s1 none) (found (word_at message 4) (drop header_size message) s p)

  handle_input-Keeps : (s : Server) → P s → Holds P (handle_input s)
  unfolding handle_input
  handle_input-Keeps s p = go (receive s) (receive-Keeps P k s p)
    where
      go : (r : Received) → Leaves P r → Holds P (process_received r)
      go fault h = tt
      go (returned s1) h = h
      go (complete message s1) h = process_message-Keeps message s1 h

  end_transaction-Keeps : (s : Server) → P s → P (end_transaction s)
  unfolding end_transaction send_reply
  end_transaction-Keeps s p = go s.pending_stop_transaction
    where
      answered : Server
      answered = send_reply_sz s.stop_transaction_id xs_transaction_end (0 ∷ []) s

      go :
          (ends : Bool)
          → P (
              if ends
              then record answered { stop_transaction_id = 0; pending_stop_transaction = false }
              else s)
      go false = p
      go true =
          k.stopping answered 0 false answered.running_transaction
            (k.replied s.stop_transaction_id xs_transaction_end (0 ∷ []) s p)

  pub drain-Keeps : (fuel : ℕ) (s : Server) → P s → P (drain fuel s)
  unfolding drain
  drain-Keeps zero s p = p
  drain-Keeps (suc fuel) s p = elim (Bool-cases (can_write s)) [
    | inl more ↦ rw (more, drain) (drain-Keeps fuel (handle_output s) (k.written s p))
    | inr done ↦ rw (done, drain) p
  ]

  send_events-Keeps : (s : Server) → P s → Holds P (send_events s)
  unfolding send_events
  send_events-Keeps s p = elim (Bool-cases (s.running_transaction == 0)) [
    | inl idle ↦ rw (idle, send_events) (k.fired s p)
    | inr busy ↦ rw (busy, send_events) p
  ]

  take_input-Keeps : (s : Server) → P s → Holds P (take_input s)
  unfolding take_input
  take_input-Keeps s p = elim (Bool-cases (can_read s)) [
    | inl ready ↦ rw (ready, take_input) (handle_input-Keeps s p)
    | inr quiet ↦ rw (quiet, take_input) p
  ]

  pub wake_up-Keeps : (s : Server) → P s → Holds P (wake_up s)
  unfolding wake_up
  wake_up-Keeps s p =
      go (send_events (end_transaction s))
        (send_events-Keeps (end_transaction s) (end_transaction-Keeps s p))
    where
      go :
          (o : Option Server)
          → Holds P o
          → Holds P (elim o [ none ↦ none | some s1 ↦ take_input s1 ])
      go none h = tt
      go (some s1) h = take_input-Keeps s1 h

  pub turn-Keeps : (s : Server) → P s → Holds P (turn s)
  unfolding turn
  turn-Keeps s p =
      Holds-map P P drain_all (wake_up s) (λ s1. drain-Keeps (left s1) s1) (wake_up-Keeps s p)
