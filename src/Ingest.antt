-- ===== src/Ingest.antt =====
-- src/locations/location-ingest.service.ts: an accepted position becomes one event on the queue.
pub mod Accepting
use geofence_location.Prelude.{ℕ, String, Option, none, some, List, [], ◌∷◌, if◌then◌else◌}
use geofence_location.Locations.{ReportLocationDto, is_too_uncertain, or_else}
use geofence_location.Worker.{LocationEvent, location_event_schema_version}
use geofence_location.Mq.{Outcome, resolved, rejected, Reason}

-- What `accept` returns or throws.
pub data Answer : Type 0 where
  accepted : ℕ → Answer
  too_uncertain : Answer
  mq_unavailable : Reason → Answer

-- what is handed to `publish`: the routing key, and the event with its `v`
pub record Published : Type 0 where
  pub routing_key : String
  pub version : ℕ
  pub event : LocationEvent

unfoldable pub event_of : ℕ → ℕ → ReportLocationDto → LocationEvent
event_of event_id received_at dto = record {
  event_id = event_id;
  user_id = dto.user_id;
  device_id = dto.device_id;
  seq = dto.seq;
  lat = dto.lat;
  lng = dto.lng;
  accuracy = dto.accuracy;
  captured_at = or_else dto.captured_at dto.observed_at;
  received_at = received_at;
}

unfoldable pub published_of : ℕ → ℕ → ReportLocationDto → Published
unfolding event_of
published_of event_id received_at dto = record {
  routing_key = dto.user_id;
  version = location_event_schema_version;
  event = event_of event_id received_at dto;
}

abbrev pub answer_of : ℕ → Outcome → Answer
answer_of event_id resolved = accepted event_id
answer_of event_id (rejected reason) = mq_unavailable reason

-- `accept`, by how the broker's side answers a publish, the fresh id and the time: its end, and what
-- was handed to `publish`
unfoldable pub accept : (Published → Outcome) → ℕ → ℕ → ReportLocationDto → Answer × List Published
unfolding published_of
accept publish event_id now dto =
    if is_too_uncertain dto.accuracy
    then (too_uncertain, [])
    else let published = published_of event_id now dto in
      (answer_of event_id (publish published), published ∷ [])
