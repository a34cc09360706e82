-- ===== src/Server/Traverse/Tests.antt =====
-- A traversal at a concrete store: /ab has a child, which is deep enough to be left out.
use zephyr_xenlib.Clib.{str_eq}
use zephyr_xenlib.Errno.{ok}
use zephyr_xenlib.Server.State.{Server}
use zephyr_xenlib.Store.Tree.{is_root_path, key_to_entry}
use zephyr_xenlib.Server.Traverse.{xss_list_traverse}
use zephyr_xenlib.Server.Traverse.Depth.{shallow, preorder, xss_list_traverse-shallow}
use zephyr_xenlib.Server.Tests.{busy}
use zephyr_xenlib.Store.Tests.{tree}
use zephyr_xenlib.Prelude.{◌≡◌, refl, true, some, [], ◌∷◌, arith}

root_found : (key_to_entry tree (b'/' ∷ []) []).0 ≡ some tree
unfolding key_to_entry is_root_path str_eq
root_found = refl

xss_list_traverse-shallow_example :
    (s' : Server) × (xss_list_traverse true 2 (b'/' ∷ []) busy
      ≡ (ok (shallow 2 (preorder 0 tree)), s'))
    × (s'.root ≡ tree)
xss_list_traverse-shallow_example =
    xss_list_traverse-shallow 2 (b'/' ∷ []) tree busy (omega arith) root_found
