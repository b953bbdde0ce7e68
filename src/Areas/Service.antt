-- ===== src/Areas/Service.antt =====
-- src/areas/areas.service.ts: `create` and `findAll`, with the query of
-- src/areas/dto/list-areas-query.dto.ts. PostGIS and the failures of statements are parameters. A
-- time is a number of milliseconds.
pub mod Creating
pub mod Arranged
pub mod Paging
use Prim.Native.String
use geofence_location.Prelude.{
  ℕ, zero, suc, ◌+◌, String, Bool, true, false, ◌&&◌, ◌||◌, Option, none, some, List, [], ◌∷◌, map,
  take, skip, ltb, leb, eqb, if◌then◌else◌,
}
use geofence_location.Database.{DriverError}
use geofence_location.Areas.{Polygon, AreaGeometryRow}
use geofence_location.Areas.Snapshot.{
  AreaTables, Rebuild, fulfilled, rejected, State, commit_area, enqueue_rebuild,
}

pub record CreateAreaDto : Type 0 where
  pub name : String
  pub boundary : Polygon

pub record AreaEntity : Type 0 where
  pub id : ℕ
  pub name : String
  pub created_at : ℕ
  pub boundary : Polygon

-- GeometryValidityRow
pub record GeometryValidityRow : Type 0 where
  pub valid : Bool
  pub reason : Option String

-- What `create` meets: the answer of PostGIS, the statements that fail, and the id and time that the
-- insert gives to the row.
pub record Creation : Type 0 where
  pub validity : Polygon → GeometryValidityRow
  pub query_fault : Option DriverError
  pub save_fault : Option DriverError
  pub version_fault : Option DriverError
  pub commit_fault : Option DriverError
  pub new_id : ℕ
  pub now : ℕ

pub data CreateFailure : Type 0 where
  -- BadRequestException, with its message
  bad_request : String → CreateFailure
  create_query_failed : DriverError → CreateFailure
  refresh_failed : CreateFailure

pub data Created : Type 0 where
  created : AreaEntity → Created
  refused : CreateFailure → Created

-- `areas` newest first, and `area_version`
pub record AreaStore : Type 0 where
  pub rows : List AreaEntity
  pub version : ℕ

abbrev pub reason_or : Option String → String
reason_or none = "unknown reason"
reason_or (some reason) = reason

unfoldable pub entity_of : Creation → CreateAreaDto → AreaEntity
entity_of e dto = record {
  id = e.new_id;
  name = dto.name;
  created_at = e.now;
  boundary = dto.boundary;
}

-- the transaction: the save, the bump of the version and the commit; a failure leaves no trace
unfoldable pub create_transaction : Creation → CreateAreaDto → AreaStore → Created × AreaStore
unfolding entity_of
create_transaction e dto store = elim e.save_fault [
  | some fault ↦ (refused (create_query_failed fault), store)
  | none ↦ elim e.version_fault [
    | some fault ↦ (refused (create_query_failed fault), store)
    | none ↦ elim e.commit_fault [
      | some fault ↦ (refused (create_query_failed fault), store)
      | none ↦ (
        created (entity_of e dto),
        record { rows = entity_of e dto ∷ store.rows; version = store.version + 1 },
      )
    ]
  ]
]

-- `create` up to the commit
unfoldable pub create_area : Creation → CreateAreaDto → AreaStore → Created × AreaStore
unfolding create_transaction
create_area e dto store = elim e.query_fault [
  | some fault ↦ (refused (create_query_failed fault), store)
  | none ↦
      let validity = e.validity dto.boundary in
      if validity.valid then create_transaction e dto store else (
        refused (bad_request (String.◌++◌ "invalid polygon: " (reason_or validity.reason))),
        store,
      )
]

-- `await refreshNow()`, and the return: the rebuild that it enqueued decides, once it is over
unfoldable pub answer_after_refresh : AreaEntity → Rebuild → Option Created
answer_after_refresh area fulfilled = some (created area)
answer_after_refresh area rejected = some (refused refresh_failed)
answer_after_refresh area _ = none

-- the columns that a rebuild reads
abbrev pub geometry_of : AreaEntity → AreaGeometryRow
geometry_of area = record { id = area.id; boundary = area.boundary }

unfoldable pub tables_of : AreaStore → AreaTables
tables_of store = record { version = store.version; areas = map geometry_of store.rows }

-- `order: { createdAt: 'ASC', id: 'ASC' }`, the keys of the ORDER BY, the first one first
abbrev pub order_keys : AreaEntity → List ℕ
order_keys area = area.created_at ∷ area.id ∷ []

-- PostgreSQL: the rows in an order by keys
abbrev pub OrderBy : Type 0
OrderBy = (AreaEntity → List ℕ) → List AreaEntity → List AreaEntity

abbrev pub default_areas_page_size : ℕ
default_areas_page_size = 50

abbrev pub max_areas_page_size : ℕ
max_areas_page_size = 500

pub record ListAreasQuery : Type 0 where
  pub limit : ℕ
  pub offset : ℕ

abbrev or_default : ℕ → Option ℕ → ℕ
or_default default none = default
or_default default (some n) = n

-- the query with its defaults, none if it is refused; the numbers have been read as integers
unfoldable pub list_query : Option ℕ → Option ℕ → Option ListAreasQuery
list_query limit offset =
    let asked = or_default default_areas_page_size limit in
    if leb 1 asked && leb asked max_areas_page_size
    then some (record { limit = asked; offset = or_default 0 offset })
    else none

-- findAll: `take: limit, skip: offset`
unfoldable pub find_all : OrderBy → ListAreasQuery → AreaStore → List AreaEntity
find_all order_by query store =
    take query.limit (skip query.offset (order_by order_keys store.rows))
