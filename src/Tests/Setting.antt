-- ===== src/Tests/Setting.antt =====
-- A small database, a worker that owns it, and surroundings in which nothing fails.
use geofence_location.Prelude.{◌+◌, false, none, some, List, [], ◌∷◌, lookup, insert, sort, whole}
use geofence_location.Database.{
  Database, PresenceRow, Connection, ok, area_ids_of, is_present, presence_row, find_state,
  upsert_state, lock_user_and_read_presence, insert_presence_row, insert_log_row,
  delete_presence_rows, transaction,
}
use geofence_location.Presence.{
  unavailable, key, read_reply, populate_command, record_invalidate_failure,
  record_change_path_noop,
}
use geofence_location.Service.{
  World, Surroundings, cache_get, cache_populate, cache_invalidate, remember_in, recall,
}
use geofence_location.Locations.{ReportLocationDto, is_too_uncertain, differs}
use geofence_location.Locations.Transition.{
  dedup, enter_area, enter_areas, depart, entered_areas, departed_areas, write_transition,
  transition,
}
use geofence_location.Locations.Report.{
  read_presence_unlocked, hint_of_read, hint_of_memory, previous_hint, acknowledge_no_change,
  run_transaction, after_commit, evaluate, report,
}
use geofence_location.Locations.Coherence.{IsCoherent}

-- Unfolding this runs the service.
unfoldable pub service : Unit {0}
unfolding lookup insert sort whole area_ids_of is_present find_state upsert_state
    lock_user_and_read_presence insert_presence_row insert_log_row delete_presence_rows transaction
    key read_reply populate_command record_invalidate_failure record_change_path_noop cache_get
    cache_populate cache_invalidate remember_in recall is_too_uncertain differs dedup enter_area
    enter_areas depart entered_areas departed_areas write_transition transition
    read_presence_unlocked hint_of_read hint_of_memory previous_hint acknowledge_no_change
    run_transaction after_commit evaluate report
service = tt

abbrev pub rows : List PresenceRow
rows = presence_row "ann" 5 1 ∷ presence_row "bob" 6 2 ∷ []

abbrev pub tables : Database
tables = record { area_ids = 1 ∷ 2 ∷ 3 ∷ []; presence = rows; logs = []; event_state = [] }

abbrev pub worker : World
worker = record {
  database = tables;
  memory = some [];
  metrics = record {
    invalidate_failed_gets_ok_count = 0;
    invalidate_failed_gets_failing_count = 0;
    change_path_noop_count = 0;
  };
  sent = [];
}

abbrev pub calm : Connection
calm = record { fault = λ _. none; log_id = λ a. a + 100 }

-- the covering areas are 3 and 2, in the order of the index
abbrev pub outside : Surroundings
outside = record {
  connection = calm;
  redis = record { get_reply = λ _. unavailable; set_done = false; del_done = false };
  redis_config = record { presence_ttl_empty_s = 300; presence_ttl_non_empty_s = 15 };
  find_covering_area_ids = λ _ _. ok (3 ∷ 2 ∷ []);
}

abbrev pub position : ReportLocationDto
position = record {
  user_id = "ann";
  lat = whole 41;
  lng = whole 28;
  device_id = none;
  seq = none;
  captured_at = some 9;
  observed_at = some 8;
  accuracy = none;
}

pub worker-IsCoherent : IsCoherent worker.memory worker.database.presence
unfolding recall lookup
worker-IsCoherent = record { agrees = λ u xs e b. cc }
