-- ===== src/Areas/Index/Covering.antt =====
-- `findCoveringAreaIds` of src/areas/spatial-index.ts, against containment alone.
use mathlib.Core.List.{Perm}
use mathlib.Core.List.Perm
use mathlib.Core.Path.{subst₂}
use mathlib.Core.Logic.{ite}
use mathlib.Core.List
use geofence_location.Prelude.{
  ℕ, ◌≡◌, refl, sym, ap, Bool, true, false, some, List, [], ◌∷◌, map, arith, filter, if◌then◌else◌,
  Bool-cases, Option-cases, inl, inr,
}
use geofence_location.Areas.{Position, Polygon, AreaGeometryRow}
use geofence_location.Areas.Index.{
  Box, IndexedArea, extend_all, empty_box, outer_ring, to_indexed_area, indexed_areas, build,
  AreaSpatialIndex, intersects, Libraries, point_box, find_covering_area_ids,
}
use geofence_location.Areas.Index.Extent.{IsBetween, IsInside-of_between}

-- What rbush and turf document: a search finds each loaded item whose box intersects the given one,
-- once, in an order of its own; a point is in a polygon only if its outer ring reaches around it.
pub record IsDocumented (lib : Libraries) : Type 0 where
  pub search :
      (items : List IndexedArea) (box : Box)
      → Perm (lib.search items box) (filter (λ item. intersects box item.box) items)
  pub around :
      (p : Position) (polygon : Polygon) (ring : List Position)
      → lib.boolean_point_in_polygon p polygon ≡ true
      → outer_ring polygon ≡ some ring
      → IsBetween ring p

module _ {A : Type 0} (test : A → Bool) where
  dec_true : (b : Bool) → Dec (b ≡ true)
  dec_true true = yes refl
  dec_true false = no λ e. cc

  pick :
      (x : A) (b : Bool) {ys zs : List A}
      → ys ≡ zs
      → (if b then x ∷ ys else ys) ≡ ite (dec_true b) (x ∷ zs) zs
  unfolding dec_true
  pick x true e = ap (λ l. x ∷ l) e
  pick x false e = e

  filter-eq : (xs : List A) → filter test xs ≡ List.filter (λ x. dec_true (test x)) xs
  filter-eq [] = refl
  filter-eq (x ∷ xs) = pick x (test x) (filter-eq xs)

  filter-Perm : {xs ys : List A} → Perm xs ys → Perm (filter test xs) (filter test ys)
  filter-Perm {xs} {ys} p =
      subst₂ Perm (sym (filter-eq xs)) (sym (filter-eq ys)) (Perm.filter (λ x. dec_true (test x)) p)

-- the ids of the areas that cover the point, by containment alone
abbrev pub covering : Libraries → Position → List AreaGeometryRow → List ℕ
covering lib p rows =
    map (λ row. row.id) (filter (λ row. lib.boolean_point_in_polygon p row.boundary) rows)

module _ (lib : Libraries) (doc : IsDocumented lib) (p : Position) where
  -- The box of a row's area meets the point if the row covers it.
  meets :
      (row : AreaGeometryRow) (area : IndexedArea)
      → to_indexed_area row ≡ some area
      → lib.boolean_point_in_polygon p row.boundary ≡ true
      → intersects (point_box p) area.box ≡ true
  unfolding to_indexed_area
  meets row area e covers = elim (Option-cases (outer_ring row.boundary)) [
    | inl no_ring ↦ cc
    | inr (ring, there) ↦
        let h =
          IsInside-of_between ring empty_box p (doc.around p row.boundary ring covers there) in
        let box : area.box ≡ extend_all ring empty_box = ground arith in
        rw box (ground (arith, h.west, h.south, h.east, h.north))
  ]

  kept :
      (row : AreaGeometryRow) (area : IndexedArea)
      → to_indexed_area row ≡ some area
      → (area.boundary ≡ row.boundary) × (area.id ≡ row.id)
  unfolding to_indexed_area
  kept row area e = (ground arith, ground arith)

  found : List IndexedArea → List ℕ
  found areas =
      map (λ entry. entry.id)
        (filter (λ entry. lib.boolean_point_in_polygon p entry.boundary)
          (filter (λ area. intersects (point_box p) area.box) areas))

  found-eq :
      (row : AreaGeometryRow) (area : IndexedArea) (rows : List AreaGeometryRow)
      (areas : List IndexedArea)
      → to_indexed_area row ≡ some area
      → found areas ≡ covering lib p rows
      → found (area ∷ areas) ≡ covering lib p (row ∷ rows)
  unfolding found
  found-eq row area rows areas e same =
      elim (Bool-cases (lib.boolean_point_in_polygon p row.boundary)) [
        | inl covers ↦ ground (arith, meets row area e covers, kept row area e)
        | inr outside ↦ ground (arith, kept row area e)
      ]

  filters-eq :
      (rows : List AreaGeometryRow) (areas : List IndexedArea)
      → indexed_areas rows ≡ some areas
      → found areas ≡ covering lib p rows
  unfolding indexed_areas found
  filters-eq [] [] e = refl
  filters-eq [] (area ∷ areas) e = ground arith
  filters-eq (row ∷ rows) areas e = elim (Option-cases (to_indexed_area row)) [
    | inl fails ↦ ground arith
    | inr (area, here) ↦ elim (Option-cases (indexed_areas rows)) [
      | inl fails ↦ ground arith
      | inr (more, rest) ↦
          let split : areas ≡ area ∷ more = ground arith in
          rw split (found-eq row area rows more here (filters-eq rows more rest))
    ]
  ]

  -- Whatever the order of the tree, a search answers with the id of each row whose area covers
  -- the point, as often as containment alone finds it.
  pub find_covering_area_ids-Perm :
      (rows : List AreaGeometryRow) (index : AreaSpatialIndex)
      → build rows ≡ some index
      → Perm (find_covering_area_ids lib index p.lng p.lat) (covering lib p rows)
  unfolding build find_covering_area_ids found
  find_covering_area_ids-Perm rows index e = elim (Option-cases (indexed_areas rows)) [
    | inl fails ↦ ground arith
    | inr (areas, there) ↦
        let items : index.items ≡ areas = ground arith in
        subst₂ Perm
          (ap
            (λ l.
              map (λ entry. entry.id)
                (filter (λ entry. lib.boolean_point_in_polygon p entry.boundary)
                  (lib.search l (point_box p))))
            (sym items))
          (filters-eq rows areas there)
          (Perm.map (λ entry. entry.id)
            (filter-Perm (λ entry. lib.boolean_point_in_polygon p entry.boundary)
              (doc.search areas (point_box p))))
  ]
