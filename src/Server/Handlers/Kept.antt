-- ===== src/Server/Handlers/Kept.antt =====
-- The handlers that change the tree and the watches keep the reference counts of watches right.
use zephyr_xenlib.Server.Keeps.Changes.{rm-Keeps, mkdir-Keeps, write-Keeps}
use zephyr_xenlib.Server.Keeps.Counted.{IsCounted-Keeps}
use zephyr_xenlib.Server.Keeps.Settings.{unwatch-Keeps, watch-Keeps}
use zephyr_xenlib.Server.Handlers.Watches.{handle_unwatch, handle_watch}
use zephyr_xenlib.Server.Handlers.Change.{handle_rm, handle_mkdir, handle_write}
use zephyr_xenlib.Server.Watch.Counted.{Holds}
use zephyr_xenlib.Server.Watch.Refs.{IsCounted}
use zephyr_xenlib.Server.State.{Server}
use zephyr_xenlib.Prelude.{ℕ, List}

-- The requests XS_WRITE, XS_MKDIR and XS_RM, with any payload and whatever memory and locks are
-- refused: where the handler runs to its end, after the reply and the events that it queues, each
-- watch's reference count is that of the list and of the events that wait.
pub changing-IsCounted :
    (id : ℕ) (payload : List ℕ) (s : Server)
    → IsCounted s
    → Holds IsCounted (handle_write id payload s)
      × Holds IsCounted (handle_mkdir id payload s)
      × Holds IsCounted (handle_rm id payload s)
changing-IsCounted id payload s c = (
  write-Keeps IsCounted IsCounted-Keeps id payload s c,
  mkdir-Keeps IsCounted IsCounted-Keeps id payload s c,
  rm-Keeps IsCounted IsCounted-Keeps id payload s c,
)

-- The requests XS_WATCH and XS_UNWATCH, with any payload and whatever memory and locks are refused:
-- where the handler runs to its end, each watch's reference count is that of the list and of the events
-- that wait.
pub watching-IsCounted :
    (id : ℕ) (payload : List ℕ) (s : Server)
    → IsCounted s
    → Holds IsCounted (handle_watch id payload s) × Holds IsCounted (handle_unwatch id payload s)
watching-IsCounted id payload s c = (
  watch-Keeps IsCounted IsCounted-Keeps id payload s c,
  unwatch-Keeps IsCounted IsCounted-Keeps id payload s c,
)
