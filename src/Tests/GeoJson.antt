-- ===== src/Tests/GeoJson.antt =====
-- Bodies of a request that creates an area.
use geofence_location.Prelude.{ℕ, ◌≡◌, ◌↔◌, refl, none, some, whole}
use geofence_location.Areas.GeoJson.{
  Value, Values, JsNumber, finite, not_finite, number, text, array, object, nil, cons, nothing,
  member, property_of, property, count, not_closed, not_finite_numbers, range_failure, pair_failure,
  position_failure, positions_failure, first_of, last_of, pair_of, is_closed, ring_failure,
  rings_failure, coordinates_failure, geo_json_polygon_failure,
}
use geofence_location.Areas.GeoJson.Accepted.{IsPolygon, geo_json_polygon_failure-eq-none_iff}

unfoldable pub checks : Unit {0}
unfolding whole property_of property count range_failure pair_failure position_failure
    positions_failure first_of last_of pair_of is_closed ring_failure rings_failure
    coordinates_failure geo_json_polygon_failure
checks = tt

abbrev pub pair : JsNumber → JsNumber → Value
pair lng lat = array (cons (number lng) (cons (number lat) nil))

abbrev pub point : ℕ → ℕ → Value
point lng lat = pair (finite (whole lng)) (finite (whole lat))

abbrev pub polygon : Values → Value
polygon ring =
    object (
      member "type" (text "Polygon") (member "coordinates" (array (cons (array ring) nil)) nothing))

abbrev pub triangle : Value
triangle =
    polygon (cons (point 28 41) (cons (point 29 41) (cons (point 29 42) (cons (point 28 41) nil))))

geo_json_polygon_failure-eq-none_iff_example :
    (geo_json_polygon_failure triangle ≡ none) ↔ IsPolygon triangle
geo_json_polygon_failure-eq-none_iff_example = geo_json_polygon_failure-eq-none_iff triangle

triangle_passes : geo_json_polygon_failure triangle ≡ none
unfolding checks
triangle_passes = refl

open_ring :
    geo_json_polygon_failure (
      polygon
        (cons (point 28 41) (cons (point 29 41) (cons (point 29 42) (cons (point 28 42) nil)))))
    ≡ some (not_closed 0)
unfolding checks
open_ring = refl

-- 1e999
overflown :
    geo_json_polygon_failure (
      polygon (
        cons (point 28 41) (
          cons
            (pair not_finite (finite (whole 41)))
            (cons (point 29 42) (cons (point 28 42) nil)))))
    ≡ some (not_finite_numbers 0 1)
unfolding checks
overflown = refl
