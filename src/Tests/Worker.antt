-- ===== src/Tests/Worker.antt =====
-- Deliveries at concrete events.
use geofence_location.Prelude.{
  ℕ, String, ◌≡◌, refl, true, false, none, some, [], ◌∷◌, arith, whole, insert, lookup,
}
use geofence_location.Database.{DriverError, ok, query_failed, lock_and_read, find_state}
use geofence_location.Service.{Surroundings}
use geofence_location.Worker.{
  LocationEvent, ack, nack, Consumer, settle, device_key, load_last_seq, is_duplicate, remember_at,
  remember_seq, is_stale_area_violation, catch_failure, conclude, after_dedup, process_event,
  handle_content, handle,
}
use geofence_location.Worker.Settling.{IsSettledOnce, handle-IsSettledOnce}
use geofence_location.Worker.Processing.{IsProcessed, process_event-IsProcessed}
use geofence_location.Worker.Redelivery.{
  retry_not_skipped, collision_skipped, first_seq_zero_skipped,
}
use geofence_location.Tests.Setting.{service, worker, calm, outside, worker-IsCoherent}

unfoldable pub consumer_runs : Unit {0}
unfolding service settle device_key load_last_seq is_duplicate remember_at remember_seq
    is_stale_area_violation catch_failure conclude after_dedup process_event handle_content handle
consumer_runs = tt

abbrev pub idle : Consumer
idle = record {
  world = worker;
  last_seq_by_device = [];
  stale_area_drop_count = 0;
  processed_count = 0;
  settled = [];
}

abbrev pub event_of : String → String → ℕ → LocationEvent
event_of user_id device_id seq = record {
  event_id = 77;
  user_id = user_id;
  device_id = some device_id;
  seq = some seq;
  lat = whole 41;
  lng = whole 28;
  accuracy = none;
  captured_at = some 9;
  received_at = 20;
}

abbrev pub first : LocationEvent
first = event_of "ann" "phone" 4

abbrev pub after_first : Consumer
after_first = process_event outside 1 first idle

after_first_settled : after_first.settled ≡ ack 1 ∷ []
unfolding consumer_runs
after_first_settled = refl

handle-IsSettledOnce_example :
    IsSettledOnce 5 [] (handle outside (record { delivery_tag = 5; content = none }) idle).settled
handle-IsSettledOnce_example =
    handle-IsSettledOnce outside (record { delivery_tag = 5; content = none }) idle

process_event-IsProcessed_example :
    IsProcessed outside 1 first (3 ∷ 2 ∷ []) idle (process_event outside 1 first idle)
process_event-IsProcessed_example =
    process_event-IsProcessed outside 1 first (3 ∷ 2 ∷ []) idle [] refl worker-IsCoherent refl
      (refl, (refl, tt))

abbrev pub gated : LocationEvent → Consumer
gated event = (is_duplicate calm event idle).1

abbrev timeout : DriverError
timeout = record { code = "57014"; constraint = none }

abbrev pub stalled : Surroundings
stalled = record outside {
  connection = record calm { fault = λ st. elim st [ lock_and_read ↦ some timeout | _ ↦ none ] };
}

stalled_settled : (process_event stalled 1 first idle).settled ≡ nack 1 true ∷ []
unfolding consumer_runs
stalled_settled = refl

retry_not_skipped_example :
    (is_duplicate calm first (process_event stalled 1 first idle)).0 ≡ ok false
unfolding consumer_runs
retry_not_skipped_example =
    retry_not_skipped stalled outside 1 first idle (gated first) (device_key "ann" "phone") 4
      (query_failed timeout) _
      (record { device_id = "phone"; device = refl; own_key = refl; own_seq = refl }) refl refl

-- user `a:b` on device `c`, and user `a` on device `b:c`
collision_skipped_example :
    process_event outside 2
      (event_of "a" "b:c" 1)
      (process_event outside 1 (event_of "a:b" "c" 4) idle)
    ≡ settle (ack 2) (process_event outside 1 (event_of "a:b" "c" 4) idle)
unfolding consumer_runs
collision_skipped_example =
    collision_skipped outside outside 1 2 "a" "b" "c" (event_of "a:b" "c" 4) (event_of "a" "b:c" 1)
      idle (gated (event_of "a:b" "c" 4)) 4 1 _ _ refl refl refl refl refl refl (omega arith) refl
      refl

first_seq_zero_skipped_example :
    process_event outside 1 (event_of "ann" "new" 0) idle
    ≡ settle (ack 1) (record idle { last_seq_by_device = insert (device_key "ann" "new") 0 [] })
unfolding lookup find_state
first_seq_zero_skipped_example =
    first_seq_zero_skipped outside 1 (event_of "ann" "new" 0) "new" idle refl refl refl refl refl
