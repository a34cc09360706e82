-- ===== src/Server/Api/Tests.antt =====
-- Server-side writes and reads at a concrete store.
use zephyr_xenlib.Server.Watch.Events.{dispatch_local_watch_events, queue_watch_notifications}
use zephyr_xenlib.Store.Alloc.{k_malloc_each}
use zephyr_xenlib.Store.Tree.{nil, cons, perms, check_perms, entry, find}
use zephyr_xenlib.Store.Write.{
  set_perms_by_array, write_value, write_walk, write_tokens, append, replace, inherit_perms,
  do_write,
}
use zephyr_xenlib.Server.Api.Spec.{xss_read-write_with, write_with-updated}
use zephyr_xenlib.Server.Handlers.Change.{lock_both, notify_watchers}
use zephyr_xenlib.Errno.{ok}
use zephyr_xenlib.Clib.{str_eq, tokens}
use zephyr_xenlib.Common.Perm.{PermEntry}
use zephyr_xenlib.Server.State.{Server}
use zephyr_xenlib.Server.Api.{xss_read, do_write_own, write_with}
use zephyr_xenlib.Store.Write.Above.{updated, value_at}
use zephyr_xenlib.Server.Tests.{busy}
use zephyr_xenlib.Store.Tests.{guest_perms, tree, path_d, d_tokens, node_c, name_ab}
use zephyr_xenlib.Prelude.{◌≡◌, refl, none, some, List, [], ◌∷◌, arith}

-- The permissions that xss_write gives.
abbrev own_perms : List PermEntry
own_perms = record { domid = 0; perm = 0 } ∷ []

abbrev after : Server
after = record busy {
  root = entry [] none (perms tree) (
      cons
        (entry name_ab none guest_perms
          (cons node_c (cons (entry (b'd' ∷ []) (some (b'y' ∷ b'z' ∷ [])) own_perms nil) nil)))
        nil);
}

written : write_with own_perms (some path_d) (some (b'y' ∷ b'z' ∷ [])) busy ≡ some (ok tt, after)
unfolding write_with do_write_own notify_watchers lock_both do_write tokens find check_perms str_eq
    inherit_perms replace append write_tokens write_walk k_malloc_each write_value
    queue_watch_notifications dispatch_local_watch_events set_perms_by_array
written = refl

write_with-updated_example :
    value_at after.root (tokens path_d)
    ≡ updated (name_ab ∷ (b'd' ∷ []) ∷ []) (b'y' ∷ b'z' ∷ []) (value_at tree) (tokens path_d)
write_with-updated_example =
    write_with-updated own_perms path_d (b'y' ∷ b'z' ∷ []) name_ab ((b'd' ∷ []) ∷ [])
      (tokens path_d) busy after d_tokens written

-- The buffer of the caller holds one byte.
xss_read-write_with_example : (s2 : Server) × (xss_read path_d 1 after ≡ some (ok (b'y' ∷ []), s2))
xss_read-write_with_example =
    xss_read-write_with own_perms path_d (b'y' ∷ b'z' ∷ []) name_ab ((b'd' ∷ []) ∷ []) 1 busy after
      d_tokens (omega arith) written refl
