-- ===== src/Server/Keeps/Reached.antt =====
-- The event thread and its client in turns: what holds in every state that they reach.
use zephyr_xenlib.Server.Keeps.Ready.{IsReady-Keeps}
use zephyr_xenlib.Server.Keeps.Counted.{IsCounted-Keeps}
use zephyr_xenlib.Server.Watch.Counted.{Holds-map, Holds}
use zephyr_xenlib.Common.Ring.Progress.{ring_read_lem, ring_write_lem}
use zephyr_xenlib.Server.Watch.Refs.{IsCounted}
use zephyr_xenlib.Common.Ring.Queue.{IsValid}
use zephyr_xenlib.Common.Ring.{ring_read, ring_write, Interface}
use zephyr_xenlib.Server.State.Stream.{left, drain_lem, IsReady}
use zephyr_xenlib.Server.State.{can_write, Server}
use zephyr_xenlib.Server.Input.{wake_up, drain_all, turn}
use zephyr_xenlib.Prelude.{ℕ, ◌≡◌, true, false, Option, none, some, List, arith}
use zephyr_xenlib.Server.Keeps.Turn.{drain-Keeps, wake_up-Keeps}

-- One step: a turn of the loop, or the client's write of a request or read of a reply.
pub data Step (s : Server) : Server → Type 0 where
  thread : {s' : Server} → turn s ≡ some s' → Step s s'
  writes : (bytes : List ℕ) → Step s (record s { domint = (ring_write s.domint bytes true).1 })
  reads : (want : ℕ) → Step s (record s { domint = (ring_read s.domint want true).1 })

pub data Reaches (s : Server) : Server → Type 0 where
  here : Reaches s s
  then_step : {s1 s2 : Server} → Reaches s s1 → Step s1 s2 → Reaches s s2

-- The output is ready, and the reference counts are right.
abbrev pub IsSane : Server → Type 0
IsSane s = IsReady s × IsCounted s

-- After the turn the output is written, as far as the ring has room.
abbrev pub Written : Server → Type 0
Written s = IsSane s × (can_write s ≡ false)

with_ring : (s : Server) (i : Interface) → IsValid i → IsReady s → IsReady (record s { domint = i })
with_ring s i v r = record { ring = v; counted = r.counted; filled = r.filled }

-- A turn of the event thread, with any request or part of one in the ring, and whatever memory and
-- locks are refused: where it runs to its end, the output is ready, each watch's reference count is
-- that of the list and of the events that wait, and no byte is left that could be written.
pub turn-IsSane : (s : Server) → IsReady s → IsCounted s → Holds Written (turn s)
unfolding turn
turn-IsSane s r c = Holds-map IsSane Written drain_all (wake_up s) drained (
    both (wake_up s) (wake_up-Keeps IsReady IsReady-Keeps s r)
      (wake_up-Keeps IsCounted IsCounted-Keeps s c))
  where
    both : (o : Option Server) → Holds IsReady o → Holds IsCounted o → Holds IsSane o
    both none h k = tt
    both (some s1) h k = (h, k)

    drained : (s1 : Server) → IsSane s1 → Written (drain_all s1)
    drained s1 (h, k) =
        let (finished, _, ready) = drain_lem (left s1) s1 h (omega arith) in
        ((ready, drain-Keeps IsCounted IsCounted-Keeps (left s1) s1 k), finished)

Step-IsSane : (s s' : Server) → Step s s' → IsSane s → IsSane s'
Step-IsSane s s' (thread ran) (r, c) = (rw ran at (turn-IsSane s r c)).0
Step-IsSane s s' (writes bytes) (r, c) = (
  with_ring s (ring_write s.domint bytes true).1 (ring_write_lem true s.domint bytes r.ring).3 r,
  c,
)
Step-IsSane s s' (reads want) (r, c) =
    (with_ring s (ring_read s.domint want true).1 (ring_read_lem true s.domint want r.ring).5 r, c)

-- In every state that a sound one reaches by turns of the event thread and by a client that writes
-- requests and reads replies through the ring, in any order, the output is ready and each watch's
-- reference count is that of the list and of the events that wait. A turn that is undefined is no
-- step.
pub reached-IsSane : (s s' : Server) → IsSane s → Reaches s s' → IsSane s'
reached-IsSane s s' sane here = sane
reached-IsSane s s' sane (then_step {s1} before step) =
    Step-IsSane s1 s' step (reached-IsSane s s1 sane before)
