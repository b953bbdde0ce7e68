-- ===== src/Tests/History.antt =====
-- Deliveries of one user: a failure, its retry, a repetition, a leave and a return.
use geofence_location.Prelude.{ℕ, ◌≡◌, refl, some, List, [], ◌∷◌, All, arith}
use geofence_location.Database.{ok, area_ids_of}
use geofence_location.Worker.History.Redelivered.{redelivered_later}
use geofence_location.Worker.{ack, settle, device_key, process_event}
use geofence_location.Database.Laws.{contains-area_ids_of}
use geofence_location.Service.{Surroundings}
use geofence_location.Worker.History.{
  Delivery, Answers, handle_each, whereabouts, visits, log_count,
}
use geofence_location.Worker.History.Steps.{IsWorker}
use geofence_location.Worker.History.Visits.{IsVisited, handle_each-IsVisited}
use geofence_location.Tests.Setting.{outside, worker-IsCoherent, rows}
use geofence_location.Tests.Worker.{
  consumer_runs, idle, event_of, stalled, first, gated, after_first,
}

abbrev over : List ℕ → Surroundings
over areas = record outside { find_covering_area_ids = λ _ _. ok areas }

abbrev delivery : Surroundings → ℕ → ℕ → Delivery
delivery s tag seq = record {
  surroundings = s;
  message = record { delivery_tag = tag; content = some (1, event_of "ann" "phone" seq) };
}

abbrev deliveries : List Delivery
deliveries =
    delivery stalled 1 4
    ∷ delivery outside 2 4
    ∷ delivery outside 3 4
    ∷ delivery (over []) 4 5
    ∷ delivery (over (3 ∷ [])) 5 6
    ∷ []

unfoldable history_runs : Unit {0}
unfolding consumer_runs handle_each whereabouts visits
history_runs = tt

two_visits : visits "ann" 3 deliveries idle (area_ids_of "ann" rows) ≡ 2
unfolding history_runs
two_visits = refl

two_rows : log_count "ann" 3 (handle_each deliveries idle).world.database.logs ≡ 2
unfolding history_runs
two_rows = refl

back_in_area : whereabouts "ann" deliveries idle (area_ids_of "ann" rows) ≡ 3 ∷ []
unfolding history_runs
back_in_area = refl

idle-IsWorker : IsWorker idle
idle-IsWorker = record { remembers = refl; coherent = worker-IsCoherent }

deliveries-Answers : All Answers deliveries
deliveries-Answers = (
  (3 ∷ 2 ∷ [], (refl, (refl, (refl, tt)))),
  (
    (3 ∷ 2 ∷ [], (refl, (refl, (refl, tt)))),
    (
      (3 ∷ 2 ∷ [], (refl, (refl, (refl, tt)))),
      (([], (refl, tt)), ((3 ∷ [], (refl, (refl, tt))), tt)),
    ),
  ),
)

handle_each-IsVisited_example : IsVisited "ann" deliveries idle (area_ids_of "ann" rows)
handle_each-IsVisited_example =
    handle_each-IsVisited "ann" deliveries idle (area_ids_of "ann" rows) idle-IsWorker
      deliveries-Answers (λ b. contains-area_ids_of "ann" b rows)

-- seq 4 again, behind the deliveries with 5 and 6 and some that failed
redelivered_later_example :
    (process_event outside 9 (event_of "ann" "phone" 4) (handle_each deliveries after_first)
      ≡ settle (ack 9) (handle_each deliveries after_first))
    × ((handle_each deliveries after_first).world.database.event_state
        ≡ idle.world.database.event_state)
unfolding history_runs
redelivered_later_example =
    redelivered_later outside outside 1 9 first (event_of "ann" "phone" 4) idle (gated first)
      (device_key "ann" "phone") 4 4 _ _ deliveries
      (record { device_id = "phone"; device = refl; own_key = refl; own_seq = refl })
      (record { device_id = "phone"; device = refl; own_key = refl; own_seq = refl }) (omega arith)
      refl refl
