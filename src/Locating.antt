-- ===== src/Locating.antt =====
-- A worker whose areas service answers from the snapshot: src/locations/locations.service.ts over
-- src/areas/area-snapshot.service.ts and src/areas/spatial-index.ts.
use mathlib.Core.List.{Perm}
use geofence_location.Prelude.{ℕ, ◌≡◌, some, List, map, ◌++◌, IsDistinct, Bool-cases, inl, inr, ap}
use geofence_location.Database.{ok}
use geofence_location.Presence.{PresenceMemory}
use geofence_location.Service.{World, Surroundings, lift, ◌>>=◌}
use geofence_location.Service.Laws.{>>=-eq-ok}
use geofence_location.Locations.{ReportLocationDto, LocationReportResponse, is_too_uncertain}
use geofence_location.Locations.Coherence.{IsCoherent}
use geofence_location.Locations.Report.{previous_hint, evaluate, report}
use geofence_location.Locations.Evaluation.{IsEvaluated, report-IsEvaluated}
use geofence_location.Areas.{Position, AreaGeometryRow}
use geofence_location.Areas.Index.{Libraries}
use geofence_location.Areas.Index.Covering.{IsDocumented, covering}
use geofence_location.Areas.Snapshot.{AreaTables, SnapshotService, State, Reach, covering_area_ids}
use geofence_location.Areas.Snapshot.Answers.{covering_area_ids-IsCovering}

-- AreasService.findCoveringAreaIds asks the snapshot
abbrev pub served_by : Libraries → SnapshotService → Surroundings → Surroundings
served_by lib service s = record s { find_covering_area_ids = covering_area_ids lib service }

abbrev position_of : ReportLocationDto → Position
position_of dto = record { lng = dto.lng; lat = dto.lat }

-- What a report has done with the areas that cover the position, of the rows that were in the table
-- of areas at some time.
pub record IsLocated (lib : Libraries) (areas : List AreaGeometryRow) (s : Surroundings)
    (dto : ReportLocationDto) (t : ℕ) (w : World) (r : LocationReportResponse) (w' : World)
    : Type 0 where
  pub current : List ℕ
  pub newer : List AreaGeometryRow
  pub rows : List AreaGeometryRow
  pub split : areas ≡ newer ++ rows
  pub covers : Perm current (covering lib (record { lng = dto.lng; lat = dto.lat }) rows)
  pub evaluated : IsEvaluated s dto t current w.database r w'

module _ (lib : Libraries) (doc : IsDocumented lib) (base : Surroundings) (dto : ReportLocationDto)
    (t : ℕ) where
  answered :
      (s : Surroundings) (w : World) {r : LocationReportResponse} {w' : World}
      → report s dto t w ≡ (ok r, w')
      → (current : List ℕ) × (s.find_covering_area_ids dto.lng dto.lat ≡ ok current)
  unfolding report
  answered s w e = elim (Bool-cases (is_too_uncertain dto.accuracy)) [
    | inl bad ↦ cc (rw bad at e)
    | inr good ↦
        let (current, w₁, asked, rest) =
          >>=-eq-ok (lift (s.find_covering_area_ids dto.lng dto.lat))
            (λ current. previous_hint s dto.user_id >>= evaluate s dto t current) w
            (rw good at e) in
        (current, ap (λ x. x.0) asked)
  ]

  -- In a process whose snapshot has come about by any order of commits, polls and rebuilds, over a
  -- table of areas with distinct ids, and whose memory agrees with the presence table, a report that
  -- returns was a duplicate and changed no table, or has made the transition to exactly the areas
  -- that cover the position, of those that were in the table at some time: all but the newest.
  pub report-IsLocated :
      {tables : AreaTables} {c : State} (w : World) (memory : PresenceMemory)
      {r : LocationReportResponse} {w' : World}
      → Reach tables c
      → IsDistinct (map (λ row. row.id) c.tables.areas)
      → w.memory ≡ some memory
      → IsCoherent w.memory w.database.presence
      → report (served_by lib c.service base) dto t w ≡ (ok r, w')
      → IsLocated lib c.tables.areas (served_by lib c.service base) dto t w r w'
  report-IsLocated {tables} {c} w memory {r} {w'} reach distinct worker h e =
      let s = served_by lib c.service base in
      let (current, found) = answered s w e in
      let (once, (newer, rows, split, covers)) =
        covering_area_ids-IsCovering lib doc (position_of dto) reach distinct found in
      record {
        current = current;
        newer = newer;
        rows = rows;
        split = split;
        covers = covers;
        evaluated = report-IsEvaluated s dto t current w memory worker h found once e;
      }
