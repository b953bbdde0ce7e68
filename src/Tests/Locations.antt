-- ===== src/Tests/Locations.antt =====
-- Reports at concrete positions.
use geofence_location.Prelude.{
  ◌≡◌, refl, false, none, some, true, [], ◌∷◌, ◌++◌, map, IsAscending, ◌↔◌,
}
use geofence_location.Database.{log_row, lock_and_read, DriverError, ok, query_failed}
use geofence_location.Service.{World, Surroundings}
use geofence_location.Locations.{differs}
use geofence_location.Locations.Transition.{Outcome}
use geofence_location.Locations.Transition.Ascending.{transition-IsAscending}
use geofence_location.Locations.Report.{report}
use geofence_location.Locations.Evaluation.{IsEvaluated, report-IsEvaluated}
use geofence_location.Locations.Failing.{IsUndone, report-IsUndone}
use geofence_location.Locations.Hint.{SameAreas, differs-eq-false_iff}
use geofence_location.Tests.Setting.{
  service, tables, worker, calm, outside, position, worker-IsCoherent,
}

abbrev moved : World
moved = (report outside position 20 worker).1

-- ann leaves area 1 and enters 2 and 3, in ascending order
report_runs :
    (report outside position 20 worker).0
    ≡ ok (record { entered_area_ids = 2 ∷ 3 ∷ []; duplicate = false })
unfolding service
report_runs = refl

report_logs : map (λ r. r.area_id) moved.database.logs ≡ 2 ∷ 3 ∷ []
unfolding service
report_logs = refl

report-IsEvaluated_example :
    IsEvaluated outside position 20
      (3 ∷ 2 ∷ [])
      tables
      (record { entered_area_ids = 2 ∷ 3 ∷ []; duplicate = false })
      moved
unfolding service
report-IsEvaluated_example =
    report-IsEvaluated outside position 20 (3 ∷ 2 ∷ []) worker [] refl worker-IsCoherent refl
      (refl, (refl, tt)) refl

abbrev timeout : DriverError
timeout = record { code = "57014"; constraint = none }

-- the locked read runs into the statement timeout
abbrev stalled : Surroundings
stalled = record outside {
  connection = record calm { fault = λ st. elim st [ lock_and_read ↦ some timeout | _ ↦ none ] };
}

report-IsUndone_example : IsUndone worker (report stalled position 20 worker).1
unfolding service
report-IsUndone_example =
    report-IsUndone stalled position 20 worker {x = query_failed timeout} worker-IsCoherent refl

differs-eq-false_iff_example :
    (differs (3 ∷ 2 ∷ []) (2 ∷ 3 ∷ []) ≡ false) ↔ SameAreas (3 ∷ 2 ∷ []) (2 ∷ 3 ∷ [])
differs-eq-false_iff_example =
    differs-eq-false_iff (3 ∷ 2 ∷ []) (2 ∷ 3 ∷ []) (refl, (refl, tt)) (refl, (refl, tt))

abbrev left : Outcome
left = record {
  response = record { entered_area_ids = 2 ∷ 3 ∷ []; duplicate = false };
  wrote_anything = true;
}

-- the covering areas come as 3 and 2
transition-IsAscending_example :
    IsAscending (2 ∷ 3 ∷ [])
    × (moved.database.logs ≡ tables.logs ++ map (log_row calm "ann" 20 (some 9)) (2 ∷ 3 ∷ []))
unfolding service
transition-IsAscending_example =
    transition-IsAscending calm position 20 (some 9) (3 ∷ 2 ∷ []) tables {outcome = left}
      {db' = moved.database} (refl, (refl, tt)) refl
