-- ===== src/Server/Keeps/Counted.antt =====
-- The small operations keep the reference counts of watches right.
use zephyr_xenlib.Server.Watch.Cleanup.{cleanup-IsCounted}
use zephyr_xenlib.Server.Watch.Sent.{process_pending-IsCounted}
use zephyr_xenlib.Server.Watch.Events.{cleanup_domain_watches, process_pending_watch_events}
use zephyr_xenlib.Store.Tree.{is_abs_path}
use zephyr_xenlib.Server.Handlers.WatchCounts.{unwatch_found-IsCounted, watch_path-IsCounted}
use zephyr_xenlib.Server.State.Untouched.{handle_output-SameEvents, SameEvents}
use zephyr_xenlib.Server.Handlers.Counts.{
  dispatch-IsCounted, notified-IsCounted, errno-IsCounted, reply-IsCounted,
}
use zephyr_xenlib.Server.Watch.Refs.{IsCounted}
use zephyr_xenlib.Server.Watch.Counted.{Holds}
use zephyr_xenlib.Server.State.{Server, invalidate_client, handle_output}
use zephyr_xenlib.Prelude.{◌≡◌, refl, not, Option, none, some}
use zephyr_xenlib.Server.Keeps.{Keeps}

from_equation :
    {P : Server → Type 0} (o : Option Server) → ((s' : Server) → o ≡ some s' → P s') → Holds P o
from_equation none h = tt
from_equation (some s') h = h s' refl

output-IsCounted : (s : Server) → IsCounted s → IsCounted (handle_output s)
output-IsCounted s c =
    let (ws, ps, ls) : SameEvents s (handle_output s) = handle_output-SameEvents s in
    rw (ws, ps, ls) c

pub IsCounted-Keeps : Keeps IsCounted
unfolding invalidate_client
IsCounted-Keeps = record {
  memory = λ s m c. c;
  locked = λ s ls c. c;
  tree = λ s root c. c;
  input = λ s b c. c;
  started = λ s t r c. c;
  stopping = λ s id b r c. c;
  invalid = λ e s c. c;
  received = λ s want c. c;
  replied = reply-IsCounted;
  refused = errno-IsCounted;
  notified = notified-IsCounted;
  dispatched = dispatch-IsCounted;
  watched = λ id text path token m m' s made c.
      watch_path-IsCounted id path token (not (is_abs_path text)) s c;
  unwatched = unwatch_found-IsCounted;
  fired = λ s c.
      from_equation {P = IsCounted} (process_pending_watch_events s)
        (λ s' e. process_pending-IsCounted s s' c e);
  cleaned = λ domain s c.
      from_equation {P = IsCounted} (cleanup_domain_watches domain s)
        (λ s' e. cleanup-IsCounted domain s s' c e);
  written = output-IsCounted;
}
