-- ===== src/Server/Handlers/Tests.antt =====
-- Runs of the handlers at concrete inputs.
use zephyr_xenlib.Prelude.{ℕ, ◌≡◌, refl, none, some, List, [], ◌∷◌, ◌++◌, arith}
use zephyr_xenlib.Errno.{ok}
use zephyr_xenlib.Clib.{bytes, IsText, str_eq, cut}
use zephyr_xenlib.Common.Perm.{perm_read}
use zephyr_xenlib.Store.Tree.{
  check_perms, is_root_path, find, key_to_entry, key_to_entry_check_perm,
}
use zephyr_xenlib.Store.Path.{validate_from, path_validate, construct_path}
use zephyr_xenlib.Store.Tests.{path_c, path_d, node_c}
use zephyr_xenlib.Server.State.{Server}
use zephyr_xenlib.Server.State.Stream.{stream}
use zephyr_xenlib.Server.State.Reply.{message_of}
use zephyr_xenlib.Server.Tests.{watched, watched-IsCounted, busy, busy-IsReady}
use zephyr_xenlib.Server.Watch.Counted.{Holds}
use zephyr_xenlib.Server.Watch.Refs.{IsCounted}
use zephyr_xenlib.Server.Handlers.Change.{handle_write, handle_mkdir, handle_rm}
use zephyr_xenlib.Server.Handlers.Kept.{changing-IsCounted, watching-IsCounted}
use zephyr_xenlib.Server.Handlers.Watches.{handle_watch, handle_unwatch}
use zephyr_xenlib.Clib.{tokens}
use zephyr_xenlib.Common.Perm.{PermEntry, perm_none}
use zephyr_xenlib.Common.Perm.Serial.{serialize_perms}
use zephyr_xenlib.Store.Tests.{tree}
use zephyr_xenlib.Server.Handlers.SetPerms.{handle_set_perms}
use zephyr_xenlib.Server.Handlers.Reperm.{repermed}
use zephyr_xenlib.Store.Remove.Effect.{view}
use zephyr_xenlib.Server.Handlers.Owner.{handle_set_perms_lem}
use zephyr_xenlib.Server.Handlers.{xs_set_perms, handle_directory, handle_read, handle_get_perms}
use zephyr_xenlib.Server.Handlers.Answer.{Answered, reading-Answered}
use zephyr_xenlib.Server.Handlers.Read.{handle_read_lem}

abbrev payload_c : List ℕ
payload_c = path_c ++ 0 ∷ []

reading-Answered_example :
    Holds (Answered 5 busy) (handle_directory 5 payload_c busy)
    × Holds (Answered 5 busy) (handle_read 5 payload_c busy)
    × Holds (Answered 5 busy) (handle_get_perms 5 payload_c busy)
reading-Answered_example = reading-Answered 5 payload_c busy busy-IsReady

c_cut : cut payload_c ≡ some (path_c, [])
unfolding cut
c_cut = refl

c_made : construct_path path_c 1 [] ≡ (ok path_c, [])
unfolding construct_path path_validate is_root_path validate_from
c_made = refl

c_found : key_to_entry_check_perm busy.root path_c 1 perm_read [] ≡ some (some node_c, [])
unfolding key_to_entry_check_perm key_to_entry find str_eq check_perms
c_found = refl

handle_read_lem_example :
    (s' : Server) × (handle_read 5 payload_c busy ≡ some s')
    × (stream s' ≡ stream busy ++ message_of 5 2 (b'x' ∷ []) busy)
handle_read_lem_example =
    handle_read_lem 5 payload_c path_c [] path_c [] (some node_c) busy c_cut c_made c_found
      (omega arith) (omega arith)

-- /ab/d is written, made and removed, with a watch on /ab.
abbrev payload_d : List ℕ
payload_d = path_d ++ 0 ∷ b'v' ∷ []

changing-IsCounted_example :
    Holds IsCounted (handle_write 5 payload_d watched)
    × Holds IsCounted (handle_mkdir 5 payload_d watched)
    × Holds IsCounted (handle_rm 5 payload_d watched)
changing-IsCounted_example = changing-IsCounted 5 payload_d watched watched-IsCounted

-- The guest 3 gives itself /ab/c, which the guest 1 owns.
abbrev taken_over : List PermEntry
taken_over = record { domid = 3; perm = 3 } ∷ []

abbrev other_guest : Server
other_guest = record busy { domid = 3 }

c_seen : key_to_entry_check_perm busy.root path_c 3 perm_none [] ≡ some (some node_c, [])
unfolding key_to_entry_check_perm key_to_entry find str_eq check_perms
c_seen = refl

c_made_3 : construct_path path_c 3 [] ≡ (ok path_c, [])
unfolding construct_path path_validate is_root_path validate_from
c_made_3 = refl

path_c-IsText : IsText path_c
path_c-IsText = (omega arith, (omega arith, (omega arith, (omega arith, (omega arith, tt)))))

handle_set_perms_lem_example :
    (s' : Server) × (handle_set_perms 5 (path_c ++ 0 ∷ serialize_perms taken_over) other_guest
      ≡ some s')
    × (view (tokens path_c) s'.root
        ≡ repermed (tokens path_c) taken_over (λ r. view r tree) (tokens path_c))
    × (stream s'
        ≡ stream other_guest ++ message_of 5 xs_set_perms (bytes "OK" ++ 0 ∷ []) other_guest)
    × (s'.invalidated ≡ none)
handle_set_perms_lem_example =
    handle_set_perms_lem 5 path_c path_c (tokens path_c) (record { domid = 3; perm = 3 }) [] node_c
      [] other_guest path_c-IsText c_made_3 c_seen (omega arith, tt) (omega arith)

-- The guest 1 watches /ab/c with the token "t", and ends its watch of /ab.
abbrev payload_watch : List ℕ
payload_watch = path_c ++ 0 ∷ b't' ∷ 0 ∷ []

watching-IsCounted_example :
    Holds IsCounted (handle_watch 5 payload_watch watched)
    × Holds IsCounted (handle_unwatch 5 payload_watch watched)
watching-IsCounted_example = watching-IsCounted 5 payload_watch watched watched-IsCounted
