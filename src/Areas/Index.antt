-- ===== src/Areas/Index.antt =====
-- src/areas/spatial-index.ts: the bounding boxes, and the search in two stages. `rbush` and `turf`
-- are parameters: `search items box` is `load(items)` and then `search(box)`.
pub mod Extent
pub mod Covering
pub mod Distinct
use geofence_location.Prelude.{
  ℕ, Bool, true, false, not, ◌&&◌, Option, none, some, List, [], ◌∷◌, map, Number, ltb_ℤ, length,
  filter, if◌then◌else◌,
}
use geofence_location.Areas.{Position, Polygon, AreaGeometryRow}

-- a side of a box: a number, or an infinity where no vertex has been seen
pub data Bound : Type 0 where
  minus_infinity infinity : Bound
  finite : Number → Bound

abbrev pub ltb_Bound : Bound → Bound → Bool
ltb_Bound minus_infinity minus_infinity = false
ltb_Bound minus_infinity infinity = true
ltb_Bound minus_infinity (finite b) = true
ltb_Bound infinity b = false
ltb_Bound (finite a) minus_infinity = false
ltb_Bound (finite a) infinity = true
ltb_Bound (finite a) (finite b) = ltb_ℤ a b

-- `a <= b`
unfoldable pub leb_Bound : Bound → Bound → Bool
leb_Bound a b = not (ltb_Bound b a)

pub record Box : Type 0 where
  pub min_x : Bound
  pub min_y : Bound
  pub max_x : Bound
  pub max_y : Bound

pub record IndexedArea : Type 0 where
  pub box : Box
  pub id : ℕ
  pub boundary : Polygon

-- one round of the loop over the outer ring
unfoldable pub extend : Position → Box → Box
extend position box = record {
  min_x = if ltb_Bound (finite position.lng) box.min_x then finite position.lng else box.min_x;
  max_x = if ltb_Bound box.max_x (finite position.lng) then finite position.lng else box.max_x;
  min_y = if ltb_Bound (finite position.lat) box.min_y then finite position.lat else box.min_y;
  max_y = if ltb_Bound box.max_y (finite position.lat) then finite position.lat else box.max_y;
}

unfoldable pub extend_all : List Position → Box → Box
unfolding extend
extend_all [] box = box
extend_all (position ∷ more) box = extend_all more (extend position box)

abbrev pub empty_box : Box
empty_box = record {
  min_x = infinity;
  min_y = infinity;
  max_x = minus_infinity;
  max_y = minus_infinity;
}

-- `boundary.coordinates[0]`
abbrev pub outer_ring : Polygon → Option (List Position)
outer_ring polygon = elim polygon.coordinates [ [] ↦ none | ring ∷ _ ↦ some ring ]

-- `toIndexedArea`: the loop throws where the polygon has no ring
unfoldable pub to_indexed_area : AreaGeometryRow → Option IndexedArea
unfolding extend_all
to_indexed_area row = elim (outer_ring row.boundary) [
  | none ↦ none
  | some ring ↦
      some (record { box = extend_all ring empty_box; id = row.id; boundary = row.boundary })
]

pub record AreaSpatialIndex : Type 0 where
  pub items : List IndexedArea
  pub area_count : ℕ

-- `rows.map(toIndexedArea)`
unfoldable pub indexed_areas : List AreaGeometryRow → Option (List IndexedArea)
unfolding to_indexed_area
indexed_areas [] = some []
indexed_areas (row ∷ more) = elim (to_indexed_area row) [
  | none ↦ none
  | some area ↦ elim (indexed_areas more) [ none ↦ none | some areas ↦ some (area ∷ areas) ]
]

-- the constructor of AreaSpatialIndex
unfoldable pub build : List AreaGeometryRow → Option AreaSpatialIndex
unfolding indexed_areas
build rows = elim (indexed_areas rows) [
  | none ↦ none
  | some areas ↦ some (record { items = areas; area_count = length rows })
]

-- rbush's test of two boxes
abbrev pub intersects : Box → Box → Bool
intersects a b =
    leb_Bound b.min_x a.max_x
    && leb_Bound b.min_y a.max_y
    && leb_Bound a.min_x b.max_x
    && leb_Bound a.min_y b.max_y

-- The two libraries.
pub record Libraries : Type 0 where
  pub search : List IndexedArea → Box → List IndexedArea
  pub boolean_point_in_polygon : Position → Polygon → Bool

abbrev pub point_box : Position → Box
point_box p = record {
  min_x = finite p.lng;
  min_y = finite p.lat;
  max_x = finite p.lng;
  max_y = finite p.lat;
}

-- AreaSpatialIndex.findCoveringAreaIds
unfoldable pub find_covering_area_ids : Libraries → AreaSpatialIndex → Number → Number → List ℕ
find_covering_area_ids lib index lng lat =
    let point : Position = record { lng = lng; lat = lat } in
    map (λ entry. entry.id)
      (filter (λ entry. lib.boolean_point_in_polygon point entry.boundary)
        (lib.search index.items (point_box point)))
