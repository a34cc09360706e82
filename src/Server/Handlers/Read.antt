-- ===== src/Server/Handlers/Read.antt =====
-- The reply to XS_READ.

use zephyr_xenlib.Prelude.{
  ℕ, ◌≤◌, ◌≡◌, refl, ap, ◌∙◌, Option, none, some, List, [], ◌∷◌, ◌++◌, length,
}
use zephyr_xenlib.Errno.{ok, enoent}
use zephyr_xenlib.Clib.{cut}
use zephyr_xenlib.Common.Errors.{error_string}
use zephyr_xenlib.Common.Perm.{perm_read}
use zephyr_xenlib.Store.Alloc.{Mem}
use zephyr_xenlib.Store.Path.{construct_path}
use zephyr_xenlib.Store.Tree.{Entry, key_to_entry_check_perm, value}
use zephyr_xenlib.Server.State.{
  Server, send_reply_read, xenstore_payload_max, xenstore_max_out_buf_num, xs_error, send_errno,
}
use zephyr_xenlib.Server.State.Stream.{stream}
use zephyr_xenlib.Server.State.Reply.{message_of, send_reply_sz-plenty, send_errno-plenty}
use zephyr_xenlib.Server.Handlers.{
  with_path, with_readable, value_or_empty, reply_value, handle_read, xs_read,
}

-- What is sent for a lookup's result.
abbrev pub read_message : ℕ → Option Entry → Server → List ℕ
read_message id none s = message_of id xs_error (error_string enoent ++ 0 ∷ []) s
read_message id (some e) s = message_of id xs_read (value_or_empty (value e)) s

abbrev pub ShortValue : Option Entry → Type 0
ShortValue none = Unit
ShortValue (some e) = length (value_or_empty (value e)) ≤ xenstore_payload_max

with_readable-read :
    (id : ℕ) (path rest : List ℕ) (found : Option Entry) (s : Server)
    → key_to_entry_check_perm s.root path s.domid perm_read s.mem ≡ some (found, [])
    → s.used_out_bufs ≤ xenstore_max_out_buf_num
    → ShortValue found
    → (s' : Server) × (with_readable id (reply_value id) path rest s ≡ some s')
      × (stream s' ≡ stream s ++ read_message id found s)
unfolding with_readable send_reply_read
with_readable-read id path rest none s look few short = (
  send_errno id enoent (record s { mem = [] }),
  rw (look, with_readable) refl,
  send_errno-plenty id enoent (record s { mem = [] }) refl few,
)
with_readable-read id path rest (some e) s look few short = (
  reply_value id e (record s { mem = [] }),
  rw (look, with_readable) refl,
  (send_reply_sz-plenty id xs_read (value_or_empty (value e)) (record s { mem = [] }) refl few
      short).0,
)

pub with_path-ok :
    (id : ℕ) (payload text rest path : List ℕ) (mem' : Mem)
    (next : List ℕ → List ℕ → Server → Option Server) (s : Server)
    → cut payload ≡ some (text, rest)
    → construct_path text s.domid s.mem ≡ (ok path, mem')
    → with_path id payload next s ≡ next path rest (record s { mem = mem' })
unfolding with_path
with_path-ok id payload text rest path mem' next s here made =
    rw (here, with_path, ap (λ p. p.0) made)
      (ap (λ m. next path rest (record s { mem = m })) (ap (λ p. p.1) made))

read_message-mem :
    (id : ℕ) (found : Option Entry) (m : Mem) (s : Server)
    → read_message id found (record s { mem = m }) ≡ read_message id found s
read_message-mem id none m s = refl
read_message-mem id (some e) m s = refl

-- XS_READ where the payload's first string makes a path, memory lasts, no more than 100 buffers wait,
-- and the value found is no longer than a payload may be: the handler runs to its end, and the reply
-- has the value of the node that the domain may read at the path, and ENOENT where there is none or it
-- may not be read.
pub handle_read_lem :
    (id : ℕ) (payload text rest path : List ℕ) (mem' : Mem) (found : Option Entry) (s : Server)
    → cut payload ≡ some (text, rest)
    → construct_path text s.domid s.mem ≡ (ok path, mem')
    → key_to_entry_check_perm s.root path s.domid perm_read mem' ≡ some (found, [])
    → s.used_out_bufs ≤ xenstore_max_out_buf_num
    → ShortValue found
    → (s' : Server) × (handle_read id payload s ≡ some s')
      × (stream s' ≡ stream s ++ read_message id found s)
unfolding handle_read
handle_read_lem id payload text rest path mem' found s here made look few short =
    let (s', ran, sent) =
      with_readable-read id path rest found (record s { mem = mem' }) look few short in
    (
      s',
      with_path-ok id payload text rest path mem' (with_readable id (reply_value id)) s here made
          ∙ ran,
      sent ∙ ap (λ x. stream s ++ x) (read_message-mem id found mem' s),
    )
