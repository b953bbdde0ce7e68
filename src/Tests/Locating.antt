-- ===== src/Tests/Locating.antt =====
-- A report to a worker that has refreshed its snapshot.
use geofence_location.Prelude.{refl, false, [], ◌∷◌, whole, lookup}
use geofence_location.Service.{World, recall}
use geofence_location.Locations.{ReportLocationDto}
use geofence_location.Locations.Coherence.{IsCoherent}
use geofence_location.Locations.Report.{report}
use geofence_location.Locating.{served_by, IsLocated, report-IsLocated}
use geofence_location.Tests.Setting.{service, tables, worker, outside, position}
use geofence_location.Tests.Areas.{
  area_runs, rectangles, rectangles-IsDocumented, refreshed, two_areas, Reach-refreshed,
  IsDistinct-ids,
}

abbrev here_now : ReportLocationDto
here_now = record position { lat = whole 3; lng = whole 3 }

abbrev nobody : World
nobody = record worker { database = record tables { area_ids = 10 ∷ 11 ∷ []; presence = [] } }

IsCoherent-nobody : IsCoherent nobody.memory nobody.database.presence
unfolding recall lookup
IsCoherent-nobody = record { agrees = λ u xs e b. cc }

report-IsLocated_example :
    IsLocated rectangles two_areas.areas
      (served_by rectangles refreshed.service outside)
      here_now
      20
      nobody
      (record { entered_area_ids = 10 ∷ 11 ∷ []; duplicate = false })
      (report (served_by rectangles refreshed.service outside) here_now 20 nobody).1
unfolding service area_runs
report-IsLocated_example =
    report-IsLocated rectangles rectangles-IsDocumented outside here_now 20 nobody []
      Reach-refreshed IsDistinct-ids refl IsCoherent-nobody refl
