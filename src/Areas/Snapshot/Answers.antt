-- ===== src/Areas/Snapshot/Answers.antt =====
-- What a process answers to a position: src/areas/area-snapshot.service.ts over its index.
use mathlib.Core.List.{Perm}
use geofence_location.Prelude.{
  ℕ, ◌≡◌, ◌∙◌, ap, subst, true, some, List, [], ◌∷◌, ◌++◌, map, arith, contains, IsDistinct,
  Option-cases, inl, inr,
}
use geofence_location.Database.{ok}
use geofence_location.Areas.{Position, AreaGeometryRow}
use geofence_location.Areas.Index.{Libraries, find_covering_area_ids}
use geofence_location.Areas.Index.Covering.{IsDocumented, covering, find_covering_area_ids-Perm}
use geofence_location.Areas.Index.Distinct.{
  find_covering_area_ids-IsDistinct, find_covering_area_ids-contains,
}
use geofence_location.Areas.Snapshot.{
  AreaTables, Snapshot, State, Steps, Reach, enqueue_rebuild, fulfilled, covering_area_ids,
}
use geofence_location.Areas.Snapshot.Served.{refresh-IsShowing}
use geofence_location.Areas.Snapshot.Moves.{Steps-IsSound, IsSound-initial}

IsDistinct-suffix :
    (newer rows : List AreaGeometryRow)
    → IsDistinct (map (λ row. row.id) (newer ++ rows))
    → IsDistinct (map (λ row. row.id) rows)
IsDistinct-suffix [] rows h = h
IsDistinct-suffix (row ∷ newer) rows h = IsDistinct-suffix newer rows h.1

-- more rows hide no area
contains-covering_append :
    (lib : Libraries) (p : Position) (newer rows : List AreaGeometryRow) (b : ℕ)
    → contains (covering lib p rows) b ≡ true
    → contains (covering lib p (newer ++ rows)) b ≡ true
contains-covering_append lib p [] rows b h = h
contains-covering_append lib p (row ∷ newer) rows b h =
    ground (arith, contains-covering_append lib p newer rows b h)

contains-covering :
    (lib : Libraries) (p : Position) (rows newer before after : List AreaGeometryRow)
    (row : AreaGeometryRow)
    → rows ≡ newer ++ (before ++ row ∷ after)
    → lib.boolean_point_in_polygon p row.boundary ≡ true
    → contains (covering lib p rows) row.id ≡ true
contains-covering lib p rows newer before after row e covers = rw e (
    contains-covering_append lib p newer (before ++ row ∷ after) row.id
      (contains-covering_append lib p before (row ∷ after) row.id (ground arith)))

module _ (lib : Libraries) (doc : IsDocumented lib) (p : Position) where
  -- A process answers with distinct areas, namely those that cover the position of the areas that
  -- were in the table at some time: all but the newest ones, in an order of the tree's own.
  pub covering_area_ids-IsCovering :
      {tables : AreaTables} {c : State} {current : List ℕ}
      → Reach tables c
      → IsDistinct (map (λ row. row.id) c.tables.areas)
      → covering_area_ids lib c.service p.lng p.lat ≡ ok current
      → IsDistinct current
        × ((newer rows : List AreaGeometryRow) × (c.tables.areas ≡ newer ++ rows)
            × Perm current (covering lib p rows))
  unfolding covering_area_ids
  covering_area_ids-IsCovering {tables} {c} {current} reach distinct e =
      elim (Option-cases c.service.snapshot) [
        | inl nothing ↦ ground arith
        | inr (snapshot, there) ↦
            let l = (Steps-IsSound reach (IsSound-initial tables)).shown snapshot there in
            let found : find_covering_area_ids lib snapshot.index p.lng p.lat ≡ current =
              ground arith in
            let d =
              IsDistinct-suffix l.read.newer l.rows
                (subst (λ a. IsDistinct (map (λ row. row.id) a)) l.read.split distinct) in
            (
              subst IsDistinct found
                  (find_covering_area_ids-IsDistinct lib doc p l.rows snapshot.index l.built d),
              (
                l.read.newer,
                l.rows,
                l.read.split,
                subst (λ ids. Perm ids (covering lib p l.rows)) found
                    (find_covering_area_ids-Perm lib doc p l.rows snapshot.index l.built),
              ),
            )
      ]

  -- Once a refresh that followed the commit of an area is fulfilled, the process finds the area at
  -- each position that it covers.
  pub refreshed_area-found :
      {tables : AreaTables} {c c' : State} (before after : List AreaGeometryRow)
      (row : AreaGeometryRow)
      → Reach tables c
      → c.tables.areas ≡ before ++ row ∷ after
      → Steps (record c { service = enqueue_rebuild c.service }) c'
      → c'.service.rebuild c.service.next ≡ fulfilled
      → lib.boolean_point_in_polygon p row.boundary ≡ true
      → (current : List ℕ) × (covering_area_ids lib c'.service p.lng p.lat ≡ ok current)
        × (contains current row.id ≡ true)
  unfolding covering_area_ids
  refreshed_area-found {tables} {c} {c'} before after row reach there steps done covers =
      let s = refresh-IsShowing reach steps done in
      let (newer, extends) = s.covers in
      (
        find_covering_area_ids lib s.snapshot.index p.lng p.lat,
        answer s.snapshot s.there,
        find_covering_area_ids-contains lib doc p s.rows s.snapshot.index row.id s.built
            ∙ contains-covering lib p s.rows newer before after row
                (extends ∙ ap (λ l. newer ++ l) there) covers,
      )
    where
      answer :
          (snapshot : Snapshot)
          → c'.service.snapshot ≡ some snapshot
          → covering_area_ids lib c'.service p.lng p.lat
            ≡ ok (find_covering_area_ids lib snapshot.index p.lng p.lat)
      answer snapshot e = ground arith
