-- ===== src/Server/Local/Tests.antt =====
-- Listing a node's children at a concrete store.
use zephyr_xenlib.Clib.{str_eq}
use zephyr_xenlib.Errno.{ok}
use zephyr_xenlib.Server.State.{Server}
use zephyr_xenlib.Store.Path.{validate_from, path_validate, construct_path}
use zephyr_xenlib.Server.Local.{xs_directory_timeout}
use zephyr_xenlib.Server.Local.Listed.{mem_of, Finds, xs_directory_timeout-names}
use zephyr_xenlib.Server.Handlers.{names}
use zephyr_xenlib.Store.Tree.{is_root_path, find, key_to_entry, child_list}
use zephyr_xenlib.Server.Tests.{busy}
use zephyr_xenlib.Store.Tests.{tree, path_ab, node_ab}
use zephyr_xenlib.Prelude.{◌≡◌, refl, true, some, [], length, take}

ab_made : (construct_path path_ab 0 []).0 ≡ ok path_ab
unfolding construct_path path_validate is_root_path validate_from
ab_made = refl

ab_there : (key_to_entry tree path_ab (mem_of path_ab busy)).0 ≡ some node_ab
unfolding key_to_entry find str_eq construct_path path_validate is_root_path validate_from
ab_there = refl

path_ab-Finds : Finds path_ab node_ab busy
path_ab-Finds = record { local = path_ab; made = ab_made; locked = refl; there = ab_there }

-- /ab has the one child "c", and the buffer holds one byte.
xs_directory_timeout-names_example :
    (s' : Server) × (xs_directory_timeout (some path_ab) true 1 0 busy
      ≡ some (ok (length (names (child_list node_ab)), take 1 (names (child_list node_ab))), s'))
    × (s'.root ≡ tree)
xs_directory_timeout-names_example =
    xs_directory_timeout-names path_ab true 1 node_ab busy path_ab-Finds refl
