-- ===== src/Worker/History/Visits.antt =====
-- The whereabouts and the visits of the users, over any sequence of deliveries to a worker of
-- src/worker/worker-consumer.service.ts.
use geofence_location.Prelude.{
  ℕ, ◌+◌, ◌≡◌, refl, sym, ap, subst, String, Bool, true, false, Option, none, some, List, [], ◌∷◌,
  arith, IsDistinct, All, eqb, if◌then◌else◌,
}
use geofence_location.Database.{ok}
use geofence_location.Service.{Surroundings}
use geofence_location.Locations.Coherence.{IsPresenceOf}
use geofence_location.Worker.{
  LocationEvent, Consumer, nack, settle, process_event, handle_content, handle,
  location_event_schema_version,
}
use geofence_location.Worker.Processing.{process_event-IsProcessed}
use geofence_location.Worker.History.{
  Delivery, areas_or_none, after, handle_each, covering, Answers, found, now_in, whereabouts,
  visits, log_count,
}
use geofence_location.Worker.History.Steps.{
  IsWorker, memory_of, process_event-IsWorker, IsStep, IsStep-idle, IsStep-unchanged,
  IsProcessed-IsStep, found_in,
}

module _ (s : Surroundings) (tag : ℕ) (u : String) where
  abbrev delivered : Option (ℕ × LocationEvent) → Delivery
  delivered content = record {
    surroundings = s;
    message = record { delivery_tag = tag; content = content };
  }

  rejected-IsWorker : (k : Consumer) → IsWorker k → IsWorker (settle (nack tag true) k)
  unfolding settle
  rejected-IsWorker k h = record { remembers = h.remembers; coherent = h.coherent }

  rejected-IsStep :
      (event : LocationEvent) (k : Consumer)
      → IsStep u
          (found_in s tag event (covering s event) u k (settle (nack tag true) k))
          k.world.database
          (settle (nack tag true) k).world.database
  unfolding settle
  rejected-IsStep event k =
      IsStep-idle s tag event (covering s event) u k (settle (nack tag true) k) (ground arith) refl

  processed-IsStep :
      (event : LocationEvent) (current : List ℕ) (k : Consumer)
      → s.find_covering_area_ids event.lng event.lat ≡ ok current
      → IsDistinct current
      → IsWorker k
      → IsStep u
          (found_in s tag event (covering s event) u k (process_event s tag event k))
          k.world.database
          (process_event s tag event k).world.database
  processed-IsStep event current k covers distinct h =
      let (memory, there) = memory_of k.world.memory h.remembers in
      let k' = process_event s tag event k in
      subst
        (λ areas. IsStep u (found_in s tag event areas u k k') k.world.database k'.world.database)
        (sym (ap areas_or_none covers))
        (IsProcessed-IsStep s tag event current u k k'
          (process_event-IsProcessed s tag event current k memory there h.coherent covers distinct))

  -- what one delivery does, by its content
  delivered-IsStep :
      (content : Option (ℕ × LocationEvent)) (k : Consumer)
      → Answers (delivered content)
      → IsWorker k
      → IsWorker (after (delivered content) k)
        × IsStep u
            (found u (delivered content) k)
            k.world.database
            (after (delivered content) k).world.database
  unfolding handle handle_content settle
  delivered-IsStep none k answers h =
      (rejected-IsWorker k h, IsStep-unchanged u k.world.database k.world.database refl)
  delivered-IsStep (some (version, event)) k (current, (covers, distinct)) h =
      by_version (eqb version location_event_schema_version)
    where
      by_version :
          (known : Bool)
          → let k' = if known then process_event s tag event k else settle (nack tag true) k in
            IsWorker k'
            × IsStep u
                (found_in s tag event (covering s event) u k k')
                k.world.database
                k'.world.database
      by_version true = (
        process_event-IsWorker s event current covers distinct tag k h,
        processed-IsStep event current k covers distinct h,
      )
      by_version false = (rejected-IsWorker k h, rejected-IsStep event k)

-- What a worker has made of a sequence of deliveries, for one user who was in the areas `before`.
pub record IsVisited (u : String) (ds : List Delivery) (k : Consumer) (before : List ℕ)
    : Type 0 where
  pub worker : IsWorker (handle_each ds k)
  pub presence :
      IsPresenceOf u (handle_each ds k).world.database.presence (whereabouts u ds k before)
  pub logs :
      (area : ℕ)
      → log_count u area (handle_each ds k).world.database.logs
        ≡ log_count u area k.world.database.logs + visits u area ds k before

-- Let a worker's memory agree with the presence table, and let the snapshot answer each of any
-- sequence of deliveries with distinct areas. Whatever fails in between, and whatever is repeated,
-- dropped or rejected: in the end each user is present in exactly the areas in which the user's last
-- evaluated event lay, and the log has grown by one row for each visit, that is, for each evaluated
-- event in an area in which the one before it, or the presence at the start, was not.
pub handle_each-IsVisited :
    (u : String) (ds : List Delivery) (k : Consumer) (before : List ℕ)
    → IsWorker k
    → All Answers ds
    → IsPresenceOf u k.world.database.presence before
    → IsVisited u ds k before
unfolding handle_each whereabouts visits
handle_each-IsVisited u [] k before h answers truth = record {
  worker = h;
  presence = truth;
  logs = λ area. omega arith;
}
handle_each-IsVisited u (d ∷ ds) k before h answers truth =
    let (h', step) =
      delivered-IsStep d.surroundings d.message.delivery_tag u d.message.content k answers.0 h in
    let rest =
      handle_each-IsVisited u ds (after d k) (now_in before (found u d k)) h' answers.1
        (step.presence before truth) in
    record {
      worker = rest.worker;
      presence = rest.presence;
      logs = λ area. omega (arith, rest.logs area, step.logs area before truth);
    }
