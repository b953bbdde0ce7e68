-- ===== src/Areas.antt =====
-- src/areas: the areas, their index in memory and the snapshot that a process holds. The proofs are
-- in the modules below.
pub mod Index
pub mod Snapshot
pub mod GeoJson
pub mod Service
use geofence_location.Prelude.{ℕ, List, Number}

-- A GeoJSON position, [lng, lat], and a Polygon as the rows of PostgreSQL hold it.
pub record Position : Type 0 where
  pub lng : Number
  pub lat : Number

pub record Polygon : Type 0 where
  pub coordinates : List (List Position)

pub record AreaGeometryRow : Type 0 where
  pub id : ℕ
  pub boundary : Polygon
