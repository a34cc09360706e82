-- ===== src/Server/Handlers/Answer.antt =====
-- What the handlers that only read send: one reply at most, with the request's id.

use zephyr_xenlib.Prelude.{
  ℕ, ◌≡◌, refl, ◌⊎◌, inl, inr, true, false, Option, none, some, List, ◌++◌, arith, Bool-cases,
  Option-cases,
}
use zephyr_xenlib.Errno.{eacces, Errno, Result, ok, err, enoent, enomem}
use zephyr_xenlib.Clib.{cut}
use zephyr_xenlib.Common.Perm.{perm_read}
use zephyr_xenlib.Common.Perm.Serial.{serialize_perms}
use zephyr_xenlib.Store.Alloc.{Mem, k_malloc}
use zephyr_xenlib.Store.Path.{construct_path}
use zephyr_xenlib.Store.Tree.{Entry, key_to_entry_check_perm, perms, child_list}
use zephyr_xenlib.Server.State.{
  send_reply_read, Server, send_errno, send_reply_sz, send_short, invalidate_client,
}
use zephyr_xenlib.Server.State.Stream.{stream, IsReady}
use zephyr_xenlib.Server.State.Reply.{
  message_of, send_reply_sz_lem, send_errno_lem, IsReady-mem, Sent,
}
use zephyr_xenlib.Server.Watch.Counted.{Holds}
use zephyr_xenlib.Server.Handlers.{
  value, value_or_empty, xs_read, reply_value, send_reply_read, check_perms, handle_get_perms,
  key_to_entry, handle_read, directory_of, handle_directory, with_path, names, reply_names,
  with_readable, reply_perms, xs_directory, xs_get_perms,
}

-- The output is ready; what the client is to read is as before, or has one whole message with the
-- request's id at its end; and the tree is as before.
abbrev pub Answered : ℕ → Server → Server → Type 0
Answered id s s' =
    IsReady s'
    × ((stream s' ≡ stream s)
        ⊎ ((type : ℕ) × (payload : List ℕ) × (stream s'
              ≡ stream s ++ message_of id type payload s)))
    × (s'.root ≡ s.root)

Sent-Answered :
    (id type : ℕ) (payload : List ℕ) (s s' : Server)
    → IsReady s' × Sent id type payload s s'
    → s'.root ≡ s.root
    → Answered id s s'
Sent-Answered id type payload s s' (r, inl same) e = (r, inl same, e)
Sent-Answered id type payload s s' (r, inr more) e = (r, inr (type, payload, more), e)

send_errno-root : (id : ℕ) (e : Errno) (s : Server) → (send_errno id e s).root ≡ s.root
unfolding send_errno send_short invalidate_client
send_errno-root id e s = ground arith

pub send_reply_sz-root :
    (id type : ℕ) (payload : List ℕ) (s : Server) → (send_reply_sz id type payload s).root ≡ s.root
unfolding send_reply_sz send_errno send_short invalidate_client
send_reply_sz-root id type payload s = ground arith

errno-Answered : (id : ℕ) (e : Errno) (s : Server) → IsReady s → Answered id s (send_errno id e s)
errno-Answered id e s r =
    Sent-Answered id _ _ s (send_errno id e s) (send_errno_lem id e s r) (send_errno-root id e s)

reply-Answered :
    (id type : ℕ) (payload : List ℕ) (s : Server)
    → IsReady s
    → Answered id s (send_reply_sz id type payload s)
reply-Answered id type payload s r =
    Sent-Answered id _ _ s (send_reply_sz id type payload s) (send_reply_sz_lem id type payload s r)
      (send_reply_sz-root id type payload s)

with_path-Answered :
    (id : ℕ) (payload : List ℕ) (next : List ℕ → List ℕ → Server → Option Server) (s : Server)
    → ((path rest : List ℕ) (s1 : Server) → IsReady s1 → Holds (Answered id s1) (next path rest s1))
    → IsReady s
    → Holds (Answered id s) (with_path id payload next s)
unfolding with_path
with_path-Answered id payload next s k r = elim (Option-cases (cut payload)) [
  | inl behind ↦ rw (behind, with_path) tt
  | inr ((text, rest), here) ↦
      rw (here, with_path) (go text rest (construct_path text s.domid s.mem) refl)
]
  where
    go :
        (text rest : List ℕ) (o : Result (List ℕ) × Mem)
        → construct_path text s.domid s.mem ≡ o
        → Holds (Answered id s) (elim o.0 [
          | err e ↦ some (send_errno id e (record s { mem = o.1 }))
          | ok path ↦ next path rest (record s { mem = o.1 })
        ])
    go text rest (err e, mem') eq =
        errno-Answered id e (record s { mem = mem' }) (IsReady-mem s mem' r)
    go text rest (ok path, mem') eq = k path rest (record s { mem = mem' }) (IsReady-mem s mem' r)

with_readable-Answered :
    (id : ℕ) (next : Entry → Server → Server) (path rest : List ℕ) (s : Server)
    → ((e : Entry) (s1 : Server) → IsReady s1 → Answered id s1 (next e s1))
    → IsReady s
    → Holds (Answered id s) (with_readable id next path rest s)
unfolding with_readable
with_readable-Answered id next path rest s k r =
    elim (Option-cases (key_to_entry_check_perm s.root path s.domid perm_read s.mem)) [
      | inl fault ↦ rw (fault, with_readable) tt
      | inr ((none, mem'), hidden) ↦
          rw (hidden, with_readable)
            (errno-Answered id enoent (record s { mem = mem' }) (IsReady-mem s mem' r))
      | inr ((some e, mem'), found) ↦
          rw (found, with_readable) (k e (record s { mem = mem' }) (IsReady-mem s mem' r))
    ]

-- A reply that needs memory first.
reply_perms-Answered :
    (id : ℕ) (e : Entry) (s : Server) → IsReady s → Answered id s (reply_perms id e s)
unfolding reply_perms
reply_perms-Answered id e s r = elim (Bool-cases (k_malloc s.mem).0) [
  | inl got ↦
      rw (got, reply_perms)
        (reply-Answered id xs_get_perms (serialize_perms (perms e))
          (record s { mem = (k_malloc s.mem).1 }) (IsReady-mem s (k_malloc s.mem).1 r))
  | inr failed ↦
      rw (failed, reply_perms)
        (errno-Answered id enoent (record s { mem = (k_malloc s.mem).1 })
          (IsReady-mem s (k_malloc s.mem).1 r))
]

reply_names-Answered :
    (id : ℕ) (e : Entry) (s : Server) → IsReady s → Answered id s (reply_names id e s)
unfolding reply_names
reply_names-Answered id e s r = elim (Bool-cases (k_malloc s.mem).0) [
  | inl got ↦
      rw (got, reply_names)
        (reply-Answered id xs_directory (names (child_list e))
          (record s { mem = (k_malloc s.mem).1 }) (IsReady-mem s (k_malloc s.mem).1 r))
  | inr failed ↦
      rw (failed, reply_names)
        (errno-Answered id enomem (record s { mem = (k_malloc s.mem).1 })
          (IsReady-mem s (k_malloc s.mem).1 r))
]

directory_of-Answered :
    (id : ℕ) (path rest : List ℕ) (s : Server)
    → IsReady s
    → Holds (Answered id s) (directory_of id path rest s)
unfolding directory_of
directory_of-Answered id path rest s r = go (key_to_entry s.root path s.mem).0 refl
  where
    s' : Server
    s' = record s { mem = (key_to_entry s.root path s.mem).1 }

    r' : IsReady s'
    r' = IsReady-mem s (key_to_entry s.root path s.mem).1 r

    go :
        (found : Option Entry)
        → (key_to_entry s.root path s.mem).0 ≡ found
        → Holds (Answered id s) (directory_of id path rest s)
    go none e = rw (e, directory_of) (errno-Answered id enoent s' r')
    go (some n) e = elim (Option-cases (check_perms (perms n) perm_read s.domid)) [
      | inl fault ↦ rw (e, directory_of, fault) tt
      | inr (true, granted) ↦ rw (e, directory_of, granted) (reply_names-Answered id n s' r')
      | inr (false, refused) ↦ rw (e, directory_of, refused) (errno-Answered id eacces s' r')
    ]

-- The requests XS_DIRECTORY, XS_READ and XS_GET_PERMS, with any payload, on a ready output: where the
-- handler runs to its end, the output is ready, what the client is to read is as before or has one
-- whole message with the request's id at its end, and the tree is as before. The teardown of a client
-- that is invalidated comes after it and is not part of the statement.
pub reading-Answered :
    (id : ℕ) (payload : List ℕ) (s : Server)
    → IsReady s
    → Holds (Answered id s) (handle_directory id payload s)
      × Holds (Answered id s) (handle_read id payload s)
      × Holds (Answered id s) (handle_get_perms id payload s)
unfolding handle_directory handle_read handle_get_perms send_reply_read
reading-Answered id payload s r = (
  with_path-Answered id payload (directory_of id) s (directory_of-Answered id) r,
  with_path-Answered id payload (with_readable id (reply_value id)) s
      (λ path rest s1.
        with_readable-Answered id (reply_value id) path rest s1
          (λ e s2. reply-Answered id xs_read (value_or_empty (value e)) s2))
      r,
  with_path-Answered id payload (with_readable id (reply_perms id)) s
      (λ path rest s1.
        with_readable-Answered id (reply_perms id) path rest s1 (reply_perms-Answered id))
      r,
)
