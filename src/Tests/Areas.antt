-- ===== src/Tests/Areas.antt =====
-- A process that starts over one area, and then creates another. The library of polygons is one
-- that knows rectangles only.
use mathlib.Core.List.{Perm}
use mathlib.Core.List.Perm
use geofence_location.Prelude.{
  ℕ, ◌+◌, ◌≡◌, refl, Bool, true, false, not, ◌&&◌, some, none, List, [], ◌∷◌, ◌++◌, map, arith,
  whole, filter, any, ltb_ℤ, contains, IsDistinct,
}
use geofence_location.Database.{ok}
use geofence_location.Areas.{Position, AreaGeometryRow}
use geofence_location.Areas.Index.{
  AreaSpatialIndex, Libraries, leb_Bound, finite, extend, extend_all, to_indexed_area,
  indexed_areas, build, intersects, outer_ring, find_covering_area_ids,
}
use geofence_location.Areas.Index.Covering.{IsDocumented, covering, find_covering_area_ids-Perm}
use geofence_location.Areas.Snapshot.{
  AreaTables, commit_area, Snapshot, SnapshotService, initial, Step, enqueue_rebuild, poll, is_over,
  may_start, start_rebuild, read_version, read_areas, swap, State, Steps, here, more, Reach,
  commit_step, refresh_step, start_step, version_step, areas_step, swap_step, covering_area_ids,
}
use geofence_location.Areas.Snapshot.Current.{IsNotBefore, quiet_poll-current, Step-IsNotBefore}
use geofence_location.Areas.Snapshot.Answers.{covering_area_ids-IsCovering, refreshed_area-found}

unfoldable pub area_runs : Unit {0}
unfolding whole leb_Bound extend extend_all to_indexed_area indexed_areas build
    find_covering_area_ids commit_area enqueue_rebuild poll is_over may_start start_rebuild
    read_version read_areas swap covering_area_ids
area_runs = tt

abbrev at : ℕ → ℕ → Position
at lng lat = record { lng = whole lng; lat = whole lat }

abbrev pub square : ℕ → ℕ → AreaGeometryRow
square id n = record {
  id = id;
  boundary = record {
    coordinates = (at n n ∷ at (n + 4) n ∷ at (n + 4) (n + 4) ∷ at n (n + 4) ∷ at n n ∷ []) ∷ [];
  };
}

abbrev reaches_around : Position → List Position → Bool
reaches_around p ring =
    any (λ v. not (ltb_ℤ p.lng v.lng)) ring
    && any (λ v. not (ltb_ℤ p.lat v.lat)) ring
    && any (λ v. not (ltb_ℤ v.lng p.lng)) ring
    && any (λ v. not (ltb_ℤ v.lat p.lat)) ring

abbrev pub rectangles : Libraries
rectangles = record {
  search = λ items box. filter (λ item. intersects box item.box) items;
  boolean_point_in_polygon =
      λ p polygon. elim (outer_ring polygon) [ none ↦ false | some ring ↦ reaches_around p ring ];
}

pub rectangles-IsDocumented : IsDocumented rectangles
rectangles-IsDocumented = record {
  search = λ items box. Perm.refl _;
  around = λ p polygon ring inside there. record {
    west = ground arith;
    south = ground arith;
    east = ground arith;
    north = ground arith;
  };
}

abbrev pub one_area : AreaTables
one_area = record { version = 1; areas = square 10 0 ∷ [] }

abbrev pub two_areas : AreaTables
two_areas = commit_area (square 11 2) one_area

-- a rebuild that nothing interrupts
abbrev rebuilt : ℕ → AreaTables → SnapshotService → SnapshotService
rebuilt n t s =
    swap n t.version t.areas (read_areas n t.version t (read_version n t (start_rebuild n s)))

abbrev pub booted : SnapshotService
booted = rebuilt 0 one_area (enqueue_rebuild initial)

pub Reach-booted : Reach one_area (record { tables = one_area; service = booted })
unfolding area_runs
Reach-booted =
    more
      (more
        (more (more (more here refresh_step) (start_step 0 (omega arith) refl refl))
          (version_step 0 (omega arith) refl))
        (areas_step 0 1 (omega arith) refl))
      (swap_step 0 1 (square 10 0 ∷ []) (omega arith) refl)

-- the process commits a second area and refreshes
abbrev committed : State
committed = record { tables = two_areas; service = booted }

abbrev pub refreshed : State
refreshed = record { tables = two_areas; service = rebuilt 1 two_areas (enqueue_rebuild booted) }

Reach-committed : Reach one_area committed
unfolding area_runs
Reach-committed = more Reach-booted (commit_step (square 11 2))

pub Steps-refreshed :
    Steps (record { tables = two_areas; service = enqueue_rebuild booted }) refreshed
unfolding area_runs
Steps-refreshed =
    more
      (more
        (more (more here (start_step 1 (omega arith) refl refl))
          (version_step 1 (omega arith) refl))
        (areas_step 1 2 (omega arith) refl))
      (swap_step 1 2 (square 11 2 ∷ square 10 0 ∷ []) (omega arith) refl)

-- the second rebuild has its rows and is about to swap
abbrev about_to_swap : SnapshotService
about_to_swap =
    read_areas 1 2 two_areas (read_version 1 two_areas (start_rebuild 1 (enqueue_rebuild booted)))

Reach-about_to_swap : Reach one_area (record { tables = two_areas; service = about_to_swap })
unfolding area_runs
Reach-about_to_swap =
    more
      (more (more (more Reach-committed refresh_step) (start_step 1 (omega arith) refl refl))
        (version_step 1 (omega arith) refl))
      (areas_step 1 2 (omega arith) refl)

swap_second :
    Step
      (record { tables = two_areas; service = about_to_swap })
      (record { tables = two_areas; service = swap 1 2 two_areas.areas about_to_swap })
unfolding area_runs
swap_second = swap_step 1 2 two_areas.areas (omega arith) refl

pub Reach-refreshed : Reach one_area refreshed
unfolding area_runs
Reach-refreshed =
    more Reach-about_to_swap (swap_step 1 2 (square 11 2 ∷ square 10 0 ∷ []) (omega arith) refl)

abbrev first_index : AreaSpatialIndex
first_index = record {
  items =
      record {
        box = record {
          min_x = finite (whole 0);
          min_y = finite (whole 0);
          max_x = finite (whole 4);
          max_y = finite (whole 4);
        };
        id = 10;
        boundary = (square 10 0).boundary;
      }
      ∷ [];
  area_count = 1;
}

first_index-built : build (square 10 0 ∷ []) ≡ some first_index
unfolding area_runs
first_index-built = refl

find_covering_area_ids-Perm_example :
    Perm
      (find_covering_area_ids rectangles first_index (whole 3) (whole 1))
      (covering rectangles (at 3 1) (square 10 0 ∷ []))
find_covering_area_ids-Perm_example =
    find_covering_area_ids-Perm rectangles rectangles-IsDocumented (at 3 1) (square 10 0 ∷ [])
      first_index first_index-built

quiet_poll-current_example :
    (snapshot : Snapshot) × (refreshed.service.snapshot ≡ some snapshot)
    × (build two_areas.areas ≡ some snapshot.index)
unfolding area_runs
quiet_poll-current_example = quiet_poll-current Reach-refreshed refl

Step-IsNotBefore_example :
    IsNotBefore
      (record { version = 1; index = first_index })
      (swap 1 2 two_areas.areas about_to_swap).snapshot
unfolding area_runs
Step-IsNotBefore_example =
    Step-IsNotBefore (record { version = 1; index = first_index }) Reach-about_to_swap swap_second
      refl

pub IsDistinct-ids : IsDistinct (map (λ row. row.id) two_areas.areas)
unfolding area_runs
IsDistinct-ids = (refl, (refl, tt))

covering_area_ids-IsCovering_example :
    IsDistinct (11 ∷ 10 ∷ [])
    × ((newer rows : List AreaGeometryRow) × (two_areas.areas ≡ newer ++ rows)
        × Perm (11 ∷ 10 ∷ []) (covering rectangles (at 3 3) rows))
unfolding area_runs
covering_area_ids-IsCovering_example =
    covering_area_ids-IsCovering rectangles rectangles-IsDocumented (at 3 3) Reach-refreshed
      IsDistinct-ids refl

new_area_found :
    (current : List ℕ) × (covering_area_ids rectangles refreshed.service (whole 5) (whole 3)
      ≡ ok current)
    × (contains current 11 ≡ true)
unfolding area_runs
new_area_found =
    refreshed_area-found rectangles rectangles-IsDocumented (at 5 3) [] one_area.areas (square 11 2)
      Reach-committed refl Steps-refreshed refl refl

found_inside : covering_area_ids rectangles booted (whole 3) (whole 1) ≡ ok (10 ∷ [])
unfolding area_runs
found_inside = refl

nothing_outside : covering_area_ids rectangles booted (whole 5) (whole 1) ≡ ok []
unfolding area_runs
nothing_outside = refl
