-- ===== src/Worker/History/Growing.antt =====
-- The tables that a worker of src/worker/worker-consumer.service.ts writes, over any sequence of
-- deliveries.
use mathlib.Core.List.{append-nil}
use geofence_location.Prelude.{ℕ, refl, sym, Option, List, [], ◌∷◌}
use geofence_location.Database.{Database}
use geofence_location.Database.Growing.{IsGrown}
use geofence_location.Presence.{PresenceMemory}
use geofence_location.Locations.Keeping.{IsKept}
use geofence_location.Locations.Transition.Growing.{transition-KeepsGrown}
use geofence_location.Service.{Surroundings}
use geofence_location.Worker.{LocationEvent, Consumer, process_event}
use geofence_location.Worker.Keeping.{process_event-keeps, handle-keeps}
use geofence_location.Worker.History.{Delivery, after, handle_each}

abbrev OfTables : Database → Database → Option PresenceMemory → Type 0
OfTables base db memory = IsGrown base db

OfTables-IsKept : (base : Database) → IsKept (OfTables base)
OfTables-IsKept base = record {
  remembered = λ u areas db memory h. h;
  committed = λ s dto t captured current db db' outcome memory anonymous e h.
      transition-KeepsGrown base s.connection dto t captured current anonymous db outcome db' e h;
}

IsGrown-itself : (db : Database) → IsGrown db db
IsGrown-itself db = record { states = refl; areas = refl; logs = ([], sym (append-nil db.logs)) }

-- one event
pub IsGrown-process_event :
    (s : Surroundings) (tag : ℕ) (event : LocationEvent) (k : Consumer)
    → IsGrown k.world.database (process_event s tag event k).world.database
IsGrown-process_event s tag event k =
    process_event-keeps (OfTables k.world.database) (OfTables-IsKept k.world.database) s tag event k
      (IsGrown-itself k.world.database)

IsGrown-handle_each :
    (base : Database) (ds : List Delivery) (k : Consumer)
    → IsGrown base k.world.database
    → IsGrown base (handle_each ds k).world.database
unfolding handle_each
IsGrown-handle_each base [] k h = h
IsGrown-handle_each base (d ∷ ds) k h =
    IsGrown-handle_each base ds (after d k)
      (handle-keeps (OfTables base) (OfTables-IsKept base) d.surroundings d.message k h)

-- Whatever a worker is delivered, with devices and sequence numbers or without, in whatever
-- surroundings, and whatever fails: it reads `user_event_state` and never writes it, it leaves the
-- areas as they are, and the log keeps every row in its place and grows at its end.
pub handle_each-IsGrown :
    (ds : List Delivery) (k : Consumer) → IsGrown k.world.database (handle_each ds k).world.database
handle_each-IsGrown ds k =
    IsGrown-handle_each k.world.database ds k (IsGrown-itself k.world.database)
