-- ===== src/Areas/Snapshot.antt =====
-- src/areas/area-snapshot.service.ts and `create` of src/areas/areas.service.ts: one process that
-- rebuilds its snapshot, while this process and others commit areas. The two queries of a rebuild
-- are separate steps, and each may fail; the event loop and the database choose the order.
pub mod Rebuilds
pub mod Sound
pub mod Moves
pub mod Served
pub mod Current
pub mod Answers
use geofence_location.Prelude.{
  ℕ, zero, suc, Number, ◌+◌, ◌<◌, ◌≡◌, ◌≢◌, Bool, true, false, not, Option, none, some, List, ◌∷◌,
  eqb, put, if◌then◌else◌,
}
use geofence_location.Areas.{AreaGeometryRow}
use geofence_location.Database.{Result, ok, err, snapshot_not_built}
use geofence_location.Areas.Index.{AreaSpatialIndex, build, Libraries, find_covering_area_ids}

-- The tables `area_version` and `areas`; the rows of the latter newest first.
pub record AreaTables : Type 0 where
  pub version : ℕ
  pub areas : List AreaGeometryRow

-- the transaction of AreasService.create: the insert and the bump commit as one
unfoldable pub commit_area : AreaGeometryRow → AreaTables → AreaTables
commit_area row tables = record { version = tables.version + 1; areas = row ∷ tables.areas }

pub record Snapshot : Type 0 where
  pub version : ℕ
  pub index : AreaSpatialIndex

-- How far a rebuild of the chain has come.
pub data Rebuild : Type 0 where
  queued : Rebuild
  reading_version : Rebuild
  reading_areas : ℕ → Rebuild
  -- the version and the rows that were read; the latter are on their way to the process
  building : ℕ → List AreaGeometryRow → Rebuild
  fulfilled : Rebuild
  rejected : Rebuild

-- AreaSnapshotService. Rebuilds are numbered in the order of `enqueueRebuild`; `rebuildChain` is
-- the promise of the last, with its failure caught.
pub record SnapshotService : Type 0 where
  pub snapshot : Option Snapshot
  pub next : ℕ
  pub rebuild : ℕ → Rebuild

abbrev pub initial : SnapshotService
initial = record { snapshot = none; next = 0; rebuild = λ _. queued }

-- AreaSnapshotService.findCoveringAreaIds
unfoldable pub covering_area_ids : Libraries → SnapshotService → Number → Number → Result (List ℕ)
covering_area_ids lib s lng lat = elim s.snapshot [
  | none ↦ err snapshot_not_built
  | some snapshot ↦ ok (find_covering_area_ids lib snapshot.index lng lat)
]

unfoldable pub enqueue_rebuild : SnapshotService → SnapshotService
enqueue_rebuild s = record s { next = s.next + 1; rebuild = put s.next queued s.rebuild }

-- what follows the query of `poll`
unfoldable pub poll : ℕ → SnapshotService → SnapshotService
unfolding enqueue_rebuild
poll version s = elim s.snapshot [
  | none ↦ enqueue_rebuild s
  | some snapshot ↦ if eqb version snapshot.version then s else enqueue_rebuild s
]

unfoldable pub is_over : Rebuild → Bool
is_over fulfilled = true
is_over rejected = true
is_over _ = false

-- `rebuildChain.then(...)` may call the rebuild
unfoldable pub may_start : SnapshotService → ℕ → Bool
unfolding is_over
may_start s zero = true
may_start s (suc n) = is_over (s.rebuild n)

unfoldable pub start_rebuild : ℕ → SnapshotService → SnapshotService
start_rebuild n s = record s { rebuild = put n reading_version s.rebuild }

unfoldable pub read_version : ℕ → AreaTables → SnapshotService → SnapshotService
read_version n tables s = record s { rebuild = put n (reading_areas tables.version) s.rebuild }

unfoldable pub read_areas : ℕ → ℕ → AreaTables → SnapshotService → SnapshotService
read_areas n version tables s = record s {
  rebuild = put n (building version tables.areas) s.rebuild;
}

-- what follows the second query: the index is built and the snapshot is swapped, in one go
unfoldable pub swap : ℕ → ℕ → List AreaGeometryRow → SnapshotService → SnapshotService
swap n version rows s = elim (build rows) [
  | none ↦ record s { rebuild = put n rejected s.rebuild }
  | some index ↦ record s {
    snapshot = some (record { version = version; index = index });
    rebuild = put n fulfilled s.rebuild;
  }
]

-- a query of the rebuild fails
unfoldable pub fail_rebuild : ℕ → SnapshotService → SnapshotService
fail_rebuild n s = record s { rebuild = put n rejected s.rebuild }

pub record State : Type 0 where
  pub tables : AreaTables
  pub service : SnapshotService

-- `refresh_step` is the call in onApplicationBootstrap, and that in `refreshNow`, which `create`
-- awaits after its commit. A poll may have read any version by the time it looks at the snapshot.
pub data Step (c : State) : State → Type 0 where
  commit_step : (row : AreaGeometryRow) → Step c (record c { tables = commit_area row c.tables })
  refresh_step : Step c (record c { service = enqueue_rebuild c.service })
  poll_step : (version : ℕ) → Step c (record c { service = poll version c.service })
  start_step :
      (n : ℕ)
      → n < c.service.next
      → c.service.rebuild n ≡ queued
      → may_start c.service n ≡ true
      → Step c (record c { service = start_rebuild n c.service })
  version_step :
      (n : ℕ)
      → n < c.service.next
      → c.service.rebuild n ≡ reading_version
      → Step c (record c { service = read_version n c.tables c.service })
  areas_step :
      (n version : ℕ)
      → n < c.service.next
      → c.service.rebuild n ≡ reading_areas version
      → Step c (record c { service = read_areas n version c.tables c.service })
  swap_step :
      (n version : ℕ) (rows : List AreaGeometryRow)
      → n < c.service.next
      → c.service.rebuild n ≡ building version rows
      → Step c (record c { service = swap n version rows c.service })
  fail_step :
      (n : ℕ)
      → n < c.service.next
      → c.service.rebuild n ≢ queued
      → is_over (c.service.rebuild n) ≡ false
      → Step c (record c { service = fail_rebuild n c.service })

-- the states that follow `c`
pub data Steps (c : State) : State → Type 0 where
  here : Steps c c
  more : {c' c'' : State} → Steps c c' → Step c' c'' → Steps c c''

-- the states that a process can be in which starts over the given tables
abbrev pub Reach : AreaTables → State → Type 0
Reach tables c = Steps (record { tables = tables; service = initial }) c
