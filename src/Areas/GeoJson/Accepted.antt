-- ===== src/Areas/GeoJson/Accepted.antt =====
-- What src/areas/dto/geojson-polygon.validation.ts accepts, against a description of polygons.
use geofence_location.Prelude.{
  ℕ, suc, ◌+◌, ◌-◌, ◌≤◌, ◌≡◌, ◌↔◌, refl, ◌∙◌, ap, String, eq_iff, eq_refl, true, Option, none, some,
  List, [], ◌∷◌, All, length, arith, Option-cases, inl, inr,
}
use geofence_location.Areas.{Position}
use geofence_location.Areas.GeoJson.{
  Value, null, boolean, number, text, array, object, Values, nil, cons, property, count,
  ring_failure, rings_failure, is_object, is_text, coordinates_failure, geo_json_polygon_failure,
}
use geofence_location.Areas.GeoJson.Positions.{encode_ring, count-encode_ring}
use geofence_location.Areas.GeoJson.Rings.{IsRing, ring_failure-eq-none, ring_failure-encode_ring}

abbrev pub encode_rings : List (List Position) → Values
encode_rings [] = nil
encode_rings (ring ∷ rings) = cons (array (encode_ring ring)) (encode_rings rings)

-- the vertices, without the repeats that close the rings
abbrev pub vertices : List (List Position) → ℕ
vertices [] = 0
vertices (ring ∷ rings) = (length ring - 1) + vertices rings

-- The value is a GeoJSON polygon: its rings are closed and within range, and not too many.
pub record IsPolygon (value : Value) : Type 0 where
  pub kind : property "type" value ≡ some (text "Polygon")
  pub ring : List Position
  pub holes : List (List Position)
  pub coordinates : property "coordinates" value ≡ some (array (encode_rings (ring ∷ holes)))
  pub rings : All IsRing (ring ∷ holes)
  pub few : vertices (ring ∷ holes) ≤ 1000

rings_failure-eq-none :
    (index before : ℕ) (vs : Values)
    → rings_failure index before vs ≡ none
    → (rings : List (List Position)) × (vs ≡ encode_rings rings)
      × All IsRing rings
      × (before + vertices rings ≤ 1000)
unfolding rings_failure
rings_failure-eq-none index before nil h = ([], refl, tt, ground arith)
rings_failure-eq-none index before (cons (array vs) rest) h =
    elim (Option-cases (ring_failure index vs)) [
      | inr (failure, e) ↦ ground arith
      | inl e ↦
          let (ring, same, good) = ring_failure-eq-none index vs e in
          let (rings, more, all, few) =
            rings_failure-eq-none (suc index) (before + (count vs - 1)) rest (ground arith) in
          let size : count vs ≡ length ring = ap count same ∙ count-encode_ring ring in
          (ring ∷ rings, cc (same, more), (good, all), omega (arith, size, few))
    ]
rings_failure-eq-none index before (cons null rest) h = ground arith
rings_failure-eq-none index before (cons (boolean b) rest) h = ground arith
rings_failure-eq-none index before (cons (number n) rest) h = ground arith
rings_failure-eq-none index before (cons (text s) rest) h = ground arith
rings_failure-eq-none index before (cons (object ms) rest) h = ground arith

rings_failure-encode_rings :
    (index before : ℕ) (rings : List (List Position))
    → All IsRing rings
    → before + vertices rings ≤ 1000
    → rings_failure index before (encode_rings rings) ≡ none
unfolding rings_failure
rings_failure-encode_rings index before [] h few = ground arith
rings_failure-encode_rings index before (ring ∷ rings) h few = ground (
  arith,
  ring_failure-encode_ring index ring h.0,
  rings_failure-encode_rings (suc index) (before + (count (encode_ring ring) - 1)) rings h.1
      (omega (arith, few, count-encode_ring ring)),
)

-- what the coordinates are once they pass
record IsCoordinates (v : Option Value) : Type 0 where
  pub ring : List Position
  pub holes : List (List Position)
  pub coordinates : v ≡ some (array (encode_rings (ring ∷ holes)))
  pub rings : All IsRing (ring ∷ holes)
  pub few : vertices (ring ∷ holes) ≤ 1000

IsCoordinates-of_rings :
    (r : Value) (rest : Values) (rings : List (List Position))
    → cons r rest ≡ encode_rings rings
    → All IsRing rings
    → vertices rings ≤ 1000
    → IsCoordinates (some (array (cons r rest)))
IsCoordinates-of_rings r rest [] e all few = cc
IsCoordinates-of_rings r rest (ring ∷ holes) e all few = record {
  ring = ring;
  holes = holes;
  coordinates = ap (λ vs. some (array vs)) e;
  rings = all;
  few = few;
}

coordinates_failure-eq-none : (v : Option Value) → coordinates_failure v ≡ none → IsCoordinates v
unfolding coordinates_failure
coordinates_failure-eq-none none h = ground arith
coordinates_failure-eq-none (some null) h = ground arith
coordinates_failure-eq-none (some (boolean b)) h = ground arith
coordinates_failure-eq-none (some (number n)) h = ground arith
coordinates_failure-eq-none (some (text s)) h = ground arith
coordinates_failure-eq-none (some (object ms)) h = ground arith
coordinates_failure-eq-none (some (array nil)) h = ground arith
coordinates_failure-eq-none (some (array (cons r rest))) h =
    let (rings, same, all, few) = rings_failure-eq-none 0 0 (cons r rest) h in
    IsCoordinates-of_rings r rest rings same all (omega (arith, few))

kind-of_is_text : (v : Option Value) → is_text "Polygon" v ≡ true → v ≡ some (text "Polygon")
kind-of_is_text none e = cc
kind-of_is_text (some null) e = cc
kind-of_is_text (some (boolean b)) e = cc
kind-of_is_text (some (number n)) e = cc
kind-of_is_text (some (text s)) e = ap (λ x. some (text x)) ((eq_iff s "Polygon").0 e)
kind-of_is_text (some (array vs)) e = cc
kind-of_is_text (some (object ms)) e = cc

is_object-of_property :
    (name : String) (value : Value) {v : Value}
    → property name value ≡ some v
    → is_object value ≡ true
unfolding property
is_object-of_property name null e = cc
is_object-of_property name (boolean b) e = cc
is_object-of_property name (number n) e = cc
is_object-of_property name (text s) e = cc
is_object-of_property name (array vs) e = refl
is_object-of_property name (object ms) e = refl

accepted : (value : Value) → geo_json_polygon_failure value ≡ none → IsPolygon value
unfolding geo_json_polygon_failure
accepted value h =
    let kind : is_text "Polygon" (property "type" value) ≡ true = ground arith in
    let c = coordinates_failure-eq-none (property "coordinates" value) (ground arith) in
    record {
      kind = kind-of_is_text (property "type" value) kind;
      ring = c.ring;
      holes = c.holes;
      coordinates = c.coordinates;
      rings = c.rings;
      few = c.few;
    }

passes : (value : Value) → IsPolygon value → geo_json_polygon_failure value ≡ none
unfolding geo_json_polygon_failure coordinates_failure
passes value p = ground (
  arith,
  is_object-of_property "type" value p.kind,
  p.kind,
  eq_refl "Polygon",
  p.coordinates,
  rings_failure-encode_rings 0 0 (p.ring ∷ p.holes) p.rings (omega (arith, p.few)),
)

-- A value passes the checks exactly when it is the GeoJSON of a polygon: at least one ring, each a
-- closed ring of four or more positions within range, of no more than 1000 vertices in all.
pub geo_json_polygon_failure-eq-none_iff :
    (value : Value) → (geo_json_polygon_failure value ≡ none) ↔ IsPolygon value
geo_json_polygon_failure-eq-none_iff value = (accepted value, passes value)
