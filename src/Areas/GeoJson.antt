-- ===== src/Areas/GeoJson.antt =====
-- src/areas/dto/geojson-polygon.validation.ts: the checks of a polygon in a request's body.
pub mod Positions
pub mod Rings
pub mod Accepted
use geofence_location.Prelude.{
  ℕ, suc, ◌+◌, ◌-◌, ◌≡◌, String, Bool, true, false, not, ◌&&◌, ◌||◌, ◌==◌, Option, none, some, List,
  [], ◌∷◌, Number, pos, negsuc, ltb_ℤ, whole, ltb, eqb, if◌then◌else◌,
}

-- A JavaScript number. JSON has no NaN, but a literal such as 1e999 is read as an infinity.
pub data JsNumber : Type 0 where
  finite : Number → JsNumber
  not_finite : JsNumber

mutual
  pub data Value : Type 0 where
    null : Value
    boolean : Bool → Value
    number : JsNumber → Value
    text : String → Value
    array : Values → Value
    object : Members → Value

  pub data Values : Type 0 where
    nil : Values
    cons : Value → Values → Values

  pub data Members : Type 0 where
    nothing : Members
    member : String → Value → Members → Members

-- `value.name`; none for undefined. The names that are read here are no properties of an array.
unfoldable pub property_of : String → Members → Option Value
property_of name nothing = none
property_of name (member other value rest) =
    let later = property_of name rest in if other == name then some value else later

unfoldable pub property : String → Value → Option Value
unfolding property_of
property name (object members) = property_of name members
property name _ = none

unfoldable pub count : Values → ℕ
count nil = 0
count (cons _ rest) = suc (count rest)

-- the messages, with the indices that they name
pub data PolygonFailure : Type 0 where
  not_an_object wrong_type no_rings : PolygonFailure
  short_ring : ℕ → PolygonFailure
  not_a_pair not_finite_numbers longitude_out_of_range latitude_out_of_range :
      ℕ → ℕ → PolygonFailure
  not_closed : ℕ → PolygonFailure
  too_many_vertices : ℕ → PolygonFailure

abbrev pub lng_range : ℕ
lng_range = 180

abbrev pub lat_range : ℕ
lat_range = 90

abbrev pub min_ring_positions : ℕ
min_ring_positions = 4

abbrev pub max_polygon_vertices : ℕ
max_polygon_vertices = 1000

-- `Math.abs`
abbrev pub absolute : Number → Number
absolute (pos n) = pos n
absolute (negsuc n) = pos (suc n)

abbrev pub eqb_ℤ : Number → Number → Bool
eqb_ℤ (pos a) (pos b) = eqb a b
eqb_ℤ (negsuc a) (negsuc b) = eqb a b
eqb_ℤ _ _ = false

-- the checks of the two numbers of a position
unfoldable pub range_failure : ℕ → ℕ → Number → Number → Option PolygonFailure
range_failure ring position lng lat =
    if ltb_ℤ (whole lng_range) (absolute lng)
    then some (longitude_out_of_range ring position)
    else if ltb_ℤ (whole lat_range) (absolute lat)
    then some (latitude_out_of_range ring position)
    else none

-- `typeof x === 'number' && Number.isFinite(x)`
abbrev pub finite_number : Value → Option Number
finite_number (number (finite n)) = some n
finite_number _ = none

unfoldable pub pair_failure : ℕ → ℕ → Value → Value → Option PolygonFailure
unfolding range_failure
pair_failure ring position lng lat = elim (finite_number lng) [
  | none ↦ some (not_finite_numbers ring position)
  | some x ↦ elim (finite_number lat) [
    | none ↦ some (not_finite_numbers ring position)
    | some y ↦ range_failure ring position x y
  ]
]

unfoldable pub position_failure : ℕ → ℕ → Value → Option PolygonFailure
unfolding pair_failure
position_failure ring position (array (cons lng (cons lat nil))) =
    pair_failure ring position lng lat
position_failure ring position _ = some (not_a_pair ring position)

-- the inner loop, from a position index on
unfoldable pub positions_failure : ℕ → ℕ → Values → Option PolygonFailure
unfolding position_failure
positions_failure ring position nil = none
positions_failure ring position (cons value rest) =
    let later = positions_failure ring (suc position) rest in
    elim (position_failure ring position value) [ some failure ↦ some failure | none ↦ later ]

-- `ring[0]` and `ring[ring.length - 1]`, once every position is a pair of numbers
unfoldable pub first_of : Values → Option Value
first_of nil = none
first_of (cons value _) = some value

unfoldable pub last_of : Values → Option Value
last_of nil = none
last_of (cons value nil) = some value
last_of (cons value (cons other rest)) = last_of (cons other rest)

unfoldable pub pair_of : Option Value → Option (Number × Number)
pair_of (some (array (cons (number (finite lng)) (cons (number (finite lat)) nil)))) =
    some (lng, lat)
pair_of _ = none

unfoldable pub is_closed : Values → Bool
unfolding first_of last_of pair_of
is_closed ring = elim (pair_of (first_of ring)) [
  | none ↦ false
  | some first ↦ elim (pair_of (last_of ring)) [
    | none ↦ false
    | some last ↦ eqb_ℤ first.0 last.0 && eqb_ℤ first.1 last.1
  ]
]

-- one round of the outer loop
unfoldable pub ring_failure : ℕ → Values → Option PolygonFailure
unfolding count positions_failure is_closed
ring_failure index ring =
    if ltb (count ring) min_ring_positions
    then some (short_ring index)
    else elim (positions_failure index 0 ring) [
      | some failure ↦ some failure
      | none ↦ if is_closed ring then none else some (not_closed index)
    ]

-- the outer loop and the check after it
unfoldable pub rings_failure : ℕ → ℕ → Values → Option PolygonFailure
unfolding ring_failure count
rings_failure index vertex_count nil =
    if ltb max_polygon_vertices vertex_count then some (too_many_vertices vertex_count) else none
rings_failure index vertex_count (cons (array ring) rest) =
    let later = rings_failure (suc index) (vertex_count + (count ring - 1)) rest in
    elim (ring_failure index ring) [ some failure ↦ some failure | none ↦ later ]
rings_failure index vertex_count (cons _ rest) = some (short_ring index)

abbrev pub is_object : Value → Bool
is_object (array _) = true
is_object (object _) = true
is_object _ = false

abbrev pub is_text : String → Option Value → Bool
is_text name (some (text other)) = other == name
is_text name _ = false

unfoldable pub coordinates_failure : Option Value → Option PolygonFailure
unfolding rings_failure
coordinates_failure (some (array (cons ring rest))) = rings_failure 0 0 (cons ring rest)
coordinates_failure _ = some no_rings

unfoldable pub geo_json_polygon_failure : Value → Option PolygonFailure
unfolding property coordinates_failure
geo_json_polygon_failure value =
    if not (is_object value)
    then some not_an_object
    else if not (is_text "Polygon" (property "type" value))
    then some wrong_type
    else coordinates_failure (property "coordinates" value)
