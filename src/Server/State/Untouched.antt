-- ===== src/Server/State/Untouched.antt =====
-- What handle_output leaves alone.
use zephyr_xenlib.Server.State.{OutBuffer, invalidate_client, write_first, Server, handle_output}
use zephyr_xenlib.Prelude.{◌≡◌, refl, List, [], ◌∷◌, arith}

-- The watches and the events of two states are the same.
abbrev pub SameEvents : Server → Server → Type 0
SameEvents s s' =
    (s'.watches ≡ s.watches) × (s'.pending ≡ s.pending) × (s'.local_events ≡ s.local_events)

pub handle_output-SameEvents : (s : Server) → SameEvents s (handle_output s)
unfolding handle_output write_first invalidate_client
handle_output-SameEvents s = go s.out_list
  where
    go : (bs : List OutBuffer) → SameEvents s (write_first bs s)
    go [] = (refl, refl, refl)
    go (out ∷ rest) = ground arith
