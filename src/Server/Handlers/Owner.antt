-- ===== src/Server/Handlers/Owner.antt =====
-- What XS_SET_PERMS does, and for whom.

use zephyr_xenlib.Prelude.{
  ℕ, suc, ◌≤◌, ◌≡◌, refl, sym, ap, ◌∙◌, true, false, Option, none, some, List, [], ◌∷◌, ◌++◌, map,
  arith, length, ◌==◌, if◌then◌else◌,
}
use zephyr_xenlib.Errno.{Result, ok}
use zephyr_xenlib.Server.Handlers.Reperm.{repermed, view-perms_at}
use zephyr_xenlib.Store.Remove.Effect.{view}
use zephyr_xenlib.Server.State.Stream.{stream}
use zephyr_xenlib.Server.State.Reply.{message_of, send_reply_sz-plenty}
use zephyr_xenlib.Clib.{cut-append, IsText, bytes, tokens}
use zephyr_xenlib.Common.Perm.{PermEntry, perm_none}
use zephyr_xenlib.Common.Perm.Serial.{serialize_perms, parse-serialize, AreSmall, normal}
use zephyr_xenlib.Store.Alloc.{Mem, k_malloc_each-plenty}
use zephyr_xenlib.Store.Tree.{Entry, key_to_entry_check_perm}
use zephyr_xenlib.Store.Write.{set_perms_by_array}
use zephyr_xenlib.Server.State.{Server, send_reply, xenstore_max_out_buf_num}
use zephyr_xenlib.Server.Handlers.{construct_path, xs_set_perms}
use zephyr_xenlib.Server.Handlers.Read.{with_path-ok}
use zephyr_xenlib.Server.Handlers.Answer.{send_reply_sz-root}
use zephyr_xenlib.Server.Handlers.SetPerms.{
  perms_at, deserialize_perms, fill, filled, store_list, store_new, set_perms_by_strings, answer,
  set_found, set_perms_of, handle_set_perms,
}

length-normal : (ps : List PermEntry) → length (map normal ps) ≡ length ps
length-normal [] = refl
length-normal (p ∷ ps) = ap suc (length-normal ps)

eq_self : (n : ℕ) → (n == n) ≡ true
eq_self n = ground arith

filled_self : (qs : List PermEntry) (n : ℕ) → length qs ≡ n → filled n (ok qs) ≡ some qs
filled_self qs n e =
    ap (λ x. if length qs == x then some qs else none) (sym e) ∙ rw (eq_self (length qs)) refl

deserialize-serialize :
    (p : PermEntry) (ps : List PermEntry)
    → AreSmall (p ∷ ps)
    → deserialize_perms (serialize_perms (p ∷ ps)) [] ≡ (some (map normal (p ∷ ps)), [])
unfolding deserialize_perms
deserialize-serialize p ps small =
    ap (fill (serialize_perms (p ∷ ps)) []) (parse-serialize (p ∷ ps) none small tt)
    ∙ ap (λ (r : Result (List PermEntry)). (filled n r, []))
        (parse-serialize (p ∷ ps) (some n) small (omega (arith, length-normal ps)))
    ∙ ap (λ (o : Option (List PermEntry)). (o, [])) (filled_self (map normal (p ∷ ps)) n refl)
  where
    n : ℕ
    n = length (map normal (p ∷ ps))

set_list-plenty : (ps : List PermEntry) → set_perms_by_array ps [] ≡ (some ps, [])
unfolding set_perms_by_array
set_list-plenty ps = rw (k_malloc_each-plenty (length ps)) refl

set_perms_by_strings-serialize :
    (path : List ℕ) (p : PermEntry) (ps : List PermEntry) (s : Server)
    → AreSmall (p ∷ ps)
    → set_perms_by_strings path (serialize_perms (p ∷ ps)) (record s { mem = [] })
      ≡ (ok tt, record s { mem = []; root = perms_at (map normal (p ∷ ps)) (tokens path) s.root })
unfolding set_perms_by_strings
set_perms_by_strings-serialize path p ps s small =
    ap (store_new path (record s { mem = [] })) (deserialize-serialize p ps small)
    ∙ ap (store_list path (record s { mem = [] })) (set_list-plenty (map normal (p ∷ ps)))

some_bytes :
    (p : PermEntry) (ps : List PermEntry) → (length (serialize_perms (p ∷ ps)) == 0) ≡ false
unfolding serialize_perms
some_bytes p ps = ground arith

-- XS_SET_PERMS with permissions as serialize_perms writes them, at least one, for domain ids of at most
-- 0x7fff, where the payload's text makes a path, the path leads to a node, memory lasts and no more than
-- 100 buffers wait: the handler runs to its end. Of all nodes the one at the path has those permissions
-- and its value as before, and every other has its value and permissions as before; the reply is "OK",
-- behind what the client was to read, and the client is not invalidated. Nothing is asked of the domain
-- that sends the request: it need not own the node, nor have the write permission.
pub handle_set_perms_lem :
    (id : ℕ) (text path : List ℕ) (q : List (List ℕ)) (p : PermEntry) (ps : List PermEntry)
    (e : Entry) (mem' : Mem) (s : Server)
    → IsText text
    → construct_path text s.domid s.mem ≡ (ok path, mem')
    → key_to_entry_check_perm s.root path s.domid perm_none mem' ≡ some (some e, [])
    → AreSmall (p ∷ ps)
    → s.used_out_bufs ≤ xenstore_max_out_buf_num
    → (s' : Server) × (handle_set_perms id (text ++ 0 ∷ serialize_perms (p ∷ ps)) s ≡ some s')
      × (view q s'.root ≡ repermed (tokens path) (map normal (p ∷ ps)) (λ r. view r s.root) q)
      × (stream s' ≡ stream s ++ message_of id xs_set_perms (bytes "OK" ++ 0 ∷ []) s)
      × (s'.invalidated ≡ s.invalidated)
unfolding handle_set_perms set_perms_of send_reply bytes
handle_set_perms_lem id text path q p ps e mem' s plain made found small few =
    let after : Server = record s {
      mem = [];
      root = perms_at (map normal (p ∷ ps)) (tokens path) s.root;
    } in
    let (told, alive, _) =
      send_reply_sz-plenty id xs_set_perms (bytes "OK" ++ 0 ∷ []) after refl few (omega arith) in
    (
      send_reply id xs_set_perms (bytes "OK") after,
      rw (cut-append text (serialize_perms (p ∷ ps)) plain, handle_set_perms, some_bytes p ps)
          (with_path-ok id (text ++ 0 ∷ serialize_perms (p ∷ ps)) text (serialize_perms (p ∷ ps))
              path mem' (set_perms_of id) s (cut-append text (serialize_perms (p ∷ ps)) plain) made
            ∙ ap (set_found id path (serialize_perms (p ∷ ps)) (record s { mem = mem' })) found
            ∙ ap (λ r. some (answer id r)) (set_perms_by_strings-serialize path p ps s small)),
      ap (view q) (send_reply_sz-root id xs_set_perms (bytes "OK" ++ 0 ∷ []) after)
          ∙ view-perms_at (map normal (p ∷ ps)) (tokens path) q s.root,
      told,
      alive,
    )
