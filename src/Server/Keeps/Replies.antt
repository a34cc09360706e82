-- ===== src/Server/Keeps/Replies.antt =====
-- The handlers that only answer, and XS_SET_PERMS, XS_WATCH and XS_UNWATCH.

use zephyr_xenlib.Prelude.{
  ℕ, ◌+◌, ◌≡◌, refl, inl, inr, true, false, Option, none, some, List, [], ◌∷◌, ◌++◌, ltb, ◌==◌,
  if◌then◌else◌, Bool-cases, Option-cases,
}
use zephyr_xenlib.Errno.{Errno, Result, ok, err, enoent, eacces, enomem, ebusy}
use zephyr_xenlib.Clib.{cut, bytes}
use zephyr_xenlib.Clib.Decimal.{print_unsigned}
use zephyr_xenlib.Common.Perm.{perm_read}
use zephyr_xenlib.Common.Perm.Serial.{serialize_perms}
use zephyr_xenlib.Store.Alloc.{Mem, k_malloc}
use zephyr_xenlib.Store.Path.{construct_path}
use zephyr_xenlib.Store.Tree.{
  Entry, key_to_entry, key_to_entry_check_perm, check_perms, perms, child_list, value,
}
use zephyr_xenlib.Server.State.{Server, send_errno, send_reply_sz, send_reply, send_reply_read}
use zephyr_xenlib.Server.Watch.Counted.{Holds, Holds-map}
use zephyr_xenlib.Server.Watch.Events.{cleanup_domain_watches}
use zephyr_xenlib.Server.Keeps.{Keeps}
use zephyr_xenlib.Server.Handlers.{
  with_path, names, reply_names, directory_of, handle_directory, with_readable, value_or_empty,
  reply_value, handle_read, reply_perms, handle_get_perms, handle_control, handle_transaction_start,
  handle_transaction_stop, handle_reset_watches, xs_directory, xs_read, xs_get_perms, xs_control,
  xs_transaction_start, xs_get_domain_path, xs_reset_watches,
}
use zephyr_xenlib.Server.Handlers.Change.{handle_get_domain_path}

module _ (P : Server → Type 0) (k : Keeps P) where
  pub with_path-Keeps :
      (id : ℕ) (payload : List ℕ) (next : List ℕ → List ℕ → Server → Option Server) (s : Server)
      → ((path rest : List ℕ) (s1 : Server) → P s1 → Holds P (next path rest s1))
      → P s
      → Holds P (with_path id payload next s)
  unfolding with_path
  with_path-Keeps id payload next s n p = elim (Option-cases (cut payload)) [
    | inl behind ↦ rw (behind, with_path) tt
    | inr ((text, rest), here) ↦ rw (here, with_path) (go rest (construct_path text s.domid s.mem))
  ]
    where
      go :
          (rest : List ℕ) (o : Result (List ℕ) × Mem)
          → Holds P (elim o.0 [
            | err e ↦ some (send_errno id e (record s { mem = o.1 }))
            | ok path ↦ next path rest (record s { mem = o.1 })
          ])
      go rest (err e, mem') = k.refused id e (record s { mem = mem' }) (k.memory s mem' p)
      go rest (ok path, mem') = n path rest (record s { mem = mem' }) (k.memory s mem' p)

  with_readable-Keeps :
      (id : ℕ) (next : Entry → Server → Server) (path rest : List ℕ) (s : Server)
      → ((e : Entry) (s1 : Server) → P s1 → P (next e s1))
      → P s
      → Holds P (with_readable id next path rest s)
  unfolding with_readable
  with_readable-Keeps id next path rest s n p =
      elim (Option-cases (key_to_entry_check_perm s.root path s.domid perm_read s.mem)) [
        | inl fault ↦ rw (fault, with_readable) tt
        | inr ((none, mem'), hidden) ↦
            rw (hidden, with_readable)
              (k.refused id enoent (record s { mem = mem' }) (k.memory s mem' p))
        | inr ((some e, mem'), found) ↦
            rw (found, with_readable) (n e (record s { mem = mem' }) (k.memory s mem' p))
      ]

  -- A reply that needs memory first.
  with_buffer-Keeps :
      (id type : ℕ) (payload : List ℕ) (e : Errno) (s : Server)
      → P s
      → P (
          if (k_malloc s.mem).0
          then send_reply_sz id type payload (record s { mem = (k_malloc s.mem).1 })
          else send_errno id e (record s { mem = (k_malloc s.mem).1 }))
  with_buffer-Keeps id type payload e s p = elim (Bool-cases (k_malloc s.mem).0) [
    | inl got ↦ rw got (
        k.replied id type payload (record s { mem = (k_malloc s.mem).1 })
          (k.memory s (k_malloc s.mem).1 p))
    | inr failed ↦
        rw failed
          (k.refused id e (record s { mem = (k_malloc s.mem).1 }) (k.memory s (k_malloc s.mem).1 p))
  ]

  reply_perms-Keeps : (id : ℕ) (e : Entry) (s : Server) → P s → P (reply_perms id e s)
  unfolding reply_perms
  reply_perms-Keeps id e s p =
      with_buffer-Keeps id xs_get_perms (serialize_perms (perms e)) enoent s p

  directory_of-Keeps :
      (id : ℕ) (path rest : List ℕ) (s : Server) → P s → Holds P (directory_of id path rest s)
  unfolding directory_of reply_names
  directory_of-Keeps id path rest s p = go (key_to_entry s.root path s.mem).0 refl
    where
      s' : Server
      s' = record s { mem = (key_to_entry s.root path s.mem).1 }

      p' : P s'
      p' = k.memory s (key_to_entry s.root path s.mem).1 p

      go :
          (found : Option Entry)
          → (key_to_entry s.root path s.mem).0 ≡ found
          → Holds P (directory_of id path rest s)
      go none e = rw (e, directory_of) (k.refused id enoent s' p')
      go (some n) e = elim (Option-cases (check_perms (perms n) perm_read s.domid)) [
        | inl fault ↦ rw (e, directory_of, fault) tt
        | inr (true, granted) ↦
            rw (e, directory_of, granted)
              (with_buffer-Keeps id xs_directory (names (child_list n)) enomem s' p')
        | inr (false, hidden) ↦ rw (e, directory_of, hidden) (k.refused id eacces s' p')
      ]

  pub directory-Keeps :
      (id : ℕ) (payload : List ℕ) (s : Server) → P s → Holds P (handle_directory id payload s)
  unfolding handle_directory
  directory-Keeps id payload s p =
      with_path-Keeps id payload (directory_of id) s (directory_of-Keeps id) p

  pub read-Keeps :
      (id : ℕ) (payload : List ℕ) (s : Server) → P s → Holds P (handle_read id payload s)
  unfolding handle_read send_reply_read
  read-Keeps id payload s p =
      with_path-Keeps id payload (with_readable id (reply_value id)) s
        (λ path rest s1.
          with_readable-Keeps id (reply_value id) path rest s1
            (λ e s2. k.replied id xs_read (value_or_empty (value e)) s2))
        p

  pub get_perms-Keeps :
      (id : ℕ) (payload : List ℕ) (s : Server) → P s → Holds P (handle_get_perms id payload s)
  unfolding handle_get_perms
  get_perms-Keeps id payload s p =
      with_path-Keeps id payload (with_readable id (reply_perms id)) s
        (λ path rest s1.
          with_readable-Keeps id (reply_perms id) path rest s1 (reply_perms-Keeps id))
        p

  pub control-Keeps :
      (id : ℕ) (payload : List ℕ) (s : Server) → P s → P (handle_control id payload s)
  unfolding handle_control send_reply
  control-Keeps id payload s p = k.replied id xs_control (bytes "OK" ++ 0 ∷ []) s p

  pub domain_path-Keeps :
      (id : ℕ) (payload : List ℕ) (s : Server) → P s → P (handle_get_domain_path id payload s)
  unfolding handle_get_domain_path send_reply
  domain_path-Keeps id payload s p = k.replied id xs_get_domain_path _ s p

  pub start-Keeps :
      (id : ℕ) (payload : List ℕ) (s : Server)
      → P s
      → Holds P (handle_transaction_start id payload s)
  unfolding handle_transaction_start send_reply
  start-Keeps id payload s p = elim (Bool-cases (s.running_transaction == 0)) [
    | inl idle ↦ elim (Bool-cases (ltb 2147483647 (s.transaction + 1))) [
      | inl over ↦ rw (idle, over, handle_transaction_start) tt
      | inr in_range ↦
          rw (idle, in_range, handle_transaction_start)
            (k.replied id xs_transaction_start (print_unsigned (s.transaction + 1) ++ 0 ∷ [])
              (record s {
                transaction = s.transaction + 1;
                running_transaction = s.transaction + 1;
              })
              (k.started s (s.transaction + 1) (s.transaction + 1) p))
    ]
    | inr busy ↦ rw (busy, handle_transaction_start) (k.refused id ebusy s p)
  ]

  pub stop-Keeps :
      (id : ℕ) (payload : List ℕ) (s : Server) → P s → P (handle_transaction_stop id payload s)
  unfolding handle_transaction_stop
  stop-Keeps id payload s p = k.stopping s id true 0 p

  pub reset-Keeps :
      (id : ℕ) (payload : List ℕ) (s : Server) → P s → Holds P (handle_reset_watches id payload s)
  unfolding handle_reset_watches send_reply
  reset-Keeps id payload s p =
      Holds-map P P (send_reply id xs_reset_watches (bytes "OK"))
        (cleanup_domain_watches (some s.domid) s)
        (λ s1. k.replied id xs_reset_watches (bytes "OK" ++ 0 ∷ []) s1)
        (k.cleaned (some s.domid) s p)
