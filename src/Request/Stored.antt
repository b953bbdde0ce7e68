-- ===== src/Request/Stored.antt =====
-- The replies of POST /areas, and what is stored: the body of src/areas/dto/create-area.dto.ts
-- through `create` of src/areas/areas.service.ts.
use geofence_location.Prelude.{
  ◌≡◌, refl, sym, ap, subst, inl, inr, ℕ, String, Bool, true, false, Option, none, some, List, [],
  ◌∷◌, ◌++◌, if◌then◌else◌, Option-cases, Bool-cases,
}
use geofence_location.Areas.{Position, Polygon}
use geofence_location.Areas.GeoJson.{Value, Members, property_of, geo_json_polygon_failure}
use geofence_location.Areas.GeoJson.Positions.{encode_ring}
use geofence_location.Areas.GeoJson.Accepted.{
  encode_rings, IsPolygon, geo_json_polygon_failure-eq-none_iff,
}
use geofence_location.Areas.Snapshot.{Rebuild, commit_area}
use geofence_location.Areas.Service.{
  CreateAreaDto, CreateFailure, Created, created, refused, AreaStore, entity_of, create_area,
  answer_after_refresh, geometry_of, tables_of,
}
use geofence_location.Areas.Service.Creating.{create_area-cases}
use geofence_location.Filter.{house_response, http_response, catch}
use geofence_location.Request.{text_of, refused_properties}
use geofence_location.Request.Typed.{IsDocumented, IsName, refused_properties-passes, is_name}
use geofence_location.Request.Reportable.{always-satisfied}
use geofence_location.Request.Answered.{neither-nil}
use geofence_location.Request.NewArea.{
  area_rules, is_geo_json_polygon, refused_area_properties, position_of, ring_of, rings_of,
  polygon_of, area_dto_of, AreaSetting, AreaReply, not_stored, create_exception, area_reply,
  after_create, is_area_refused, post_area,
}

-- The DTO of a body: its name, and the rings of a boundary that is the GeoJSON of a polygon.
pub record IsStorable (size : String → ℕ) (body : Members) (dto : CreateAreaDto) : Type 0 where
  pub name : IsName size 255 dto.name
  pub value : Value
  pub there : property_of "boundary" body ≡ some value
  pub polygon : IsPolygon value
  pub same : dto.boundary.coordinates ≡ polygon.ring ∷ polygon.holes

-- The ways in which a body is answered, with the store after it.
pub data IsAreaAnswered (s : AreaSetting) (size : String → ℕ) (rebuild : Rebuild) (body : Members)
    (store : AreaStore) : Option (Option AreaReply × AreaStore) → Type 0 where
  area_refused :
      is_area_refused s body ≡ true
      → IsAreaAnswered s size rebuild body store (
          some (
            some (
                not_stored (
                  house_response 400 (s.messages (refused_area_properties s.satisfies body) body))),
            store,
          ))
  area_fails :
      (dto : CreateAreaDto)
      → IsStorable size body dto
      → (failure : CreateFailure) → (create_area s.creation dto store).0 ≡ refused failure
      → IsAreaAnswered s size rebuild body store
          (some (some (not_stored (catch (create_exception s failure))), store))
  area_commits :
      (dto : CreateAreaDto)
      → IsStorable size body dto
      → (s.creation.validity dto.boundary).valid ≡ true
      → (later : AreaStore)
      → tables_of later ≡ commit_area (geometry_of (entity_of s.creation dto)) (tables_of store)
      → IsAreaAnswered s size rebuild body store
          (some (area_reply s (answer_after_refresh (entity_of s.creation dto) rebuild), later))

ring_of-encode_ring : (ring : List Position) → ring_of (encode_ring ring) ≡ some ring
unfolding ring_of position_of encode_ring
ring_of-encode_ring [] = refl
ring_of-encode_ring (p ∷ ring) = rw (ring_of-encode_ring ring) refl

rings_of-encode_rings : (rings : List (List Position)) → rings_of (encode_rings rings) ≡ some rings
unfolding rings_of
rings_of-encode_rings [] = refl
rings_of-encode_rings (ring ∷ rings) =
    rw (ring_of-encode_ring ring, rings_of-encode_rings rings) refl

polygon_of-IsPolygon :
    (value : Value) (p : IsPolygon value)
    → polygon_of value ≡ some (record { coordinates = p.ring ∷ p.holes })
unfolding polygon_of
polygon_of-IsPolygon value p = rw (p.coordinates, rings_of-encode_rings (p.ring ∷ p.holes)) refl

is_geo_json_polygon-IsPolygon :
    (value : Option Value)
    → is_geo_json_polygon value ≡ true
    → (v : Value) × (value ≡ some v) × IsPolygon v
unfolding is_geo_json_polygon
is_geo_json_polygon-IsPolygon none e = cc
is_geo_json_polygon-IsPolygon (some v) e = elim (Option-cases (geo_json_polygon_failure v)) [
  | inl passed ↦ (v, refl, (geo_json_polygon_failure-eq-none_iff v).0 passed)
  | inr (failure, there) ↦ cc (e, there)
]

append-nil :
    (l : List String) (b : Bool) (name : String)
    → l ++ (if b then [] else name ∷ []) ≡ []
    → (l ≡ []) × (b ≡ true)
append-nil [] true name e = (refl, refl)
append-nil [] false name e = cc
append-nil (x ∷ l) b name e = cc

area_dto_of-eq :
    (body : Members) (name : String) (value : Value) (boundary : Polygon)
    → text_of (property_of "name" body) ≡ some name
    → property_of "boundary" body ≡ some value
    → polygon_of value ≡ some boundary
    → area_dto_of body ≡ some (record { name = name; boundary = boundary })
unfolding area_dto_of
area_dto_of-eq body name value boundary named there read = rw (named, there, read) refl

is_area_refused-passes :
    (s : AreaSetting) (body : Members)
    → is_area_refused s body ≡ false
    → (refused_properties s.satisfies body area_rules ≡ [])
      × (is_geo_json_polygon (property_of "boundary" body) ≡ true)
unfolding is_area_refused refused_area_properties
is_area_refused-passes s body passed =
    append-nil (refused_properties s.satisfies body area_rules)
      (is_geo_json_polygon (property_of "boundary" body)) "boundary"
      (neither-nil (s.forbids body) (refused_area_properties s.satisfies body) passed)

-- A body that is let through is a DTO of the types that its class names.
area_dto_of-IsStorable :
    (s : AreaSetting) (size : String → ℕ) (body : Members)
    → IsDocumented s.satisfies size
    → is_area_refused s body ≡ false
    → (dto : CreateAreaDto) × (area_dto_of body ≡ some dto) × IsStorable size body dto
area_dto_of-IsStorable s size body doc passed =
    let (names, shaped) = is_area_refused-passes s body passed in
    let (named, _) = refused_properties-passes s.satisfies body _ _ names in
    let (name, name_there, is) =
      is_name s.satisfies size doc 255 _ (always-satisfied s.satisfies body _ _ named) in
    let (value, there, polygon) =
      is_geo_json_polygon-IsPolygon (property_of "boundary" body) shaped in
    let boundary : Polygon = record { coordinates = polygon.ring ∷ polygon.holes } in
    (
      record { name = name; boundary = boundary },
      area_dto_of-eq body name value boundary (ap text_of name_there) there
          (polygon_of-IsPolygon value polygon),
      record { name = is; value = value; there = there; polygon = polygon; same = refl },
    )

post_area-refused :
    (s : AreaSetting) (rebuild : Rebuild) (body : Members) (store : AreaStore)
    → is_area_refused s body ≡ true
    → post_area s rebuild body store
      ≡ some (
        some (
            not_stored
              (house_response 400 (s.messages (refused_area_properties s.satisfies body) body))),
        store,
      )
unfolding post_area catch http_response
post_area-refused s rebuild body store is = rw is refl

post_area-passed :
    (s : AreaSetting) (rebuild : Rebuild) (body : Members) (store : AreaStore) (dto : CreateAreaDto)
    (ended : Created) (later : AreaStore)
    → is_area_refused s body ≡ false
    → area_dto_of body ≡ some dto
    → create_area s.creation dto store ≡ (ended, later)
    → post_area s rebuild body store ≡ some (after_create s rebuild (ended, later))
unfolding post_area
post_area-passed s rebuild body store dto ended later passed read ran = rw (passed, read, ran) refl

-- A body is answered in one of three ways, if class-validator does what it documents. With the 400
-- of the pipe, and the store as it was, if the pipe forbids a property or a decorator refuses one.
-- Any other body is a DTO: a name of 1 to 255 characters, and a boundary that is the GeoJSON of a
-- polygon with closed rings, positions within range and at most 1000 vertices. If `create` fails
-- before its commit, the store is as it was and the reply is the filter's for that failure. Else the
-- boundary is valid to PostGIS and the store has one more area, with its version raised, and the
-- reply is decided by the refresh, once it is over.
pub post_area-IsAreaAnswered :
    (s : AreaSetting) (size : String → ℕ) (rebuild : Rebuild) (body : Members) (store : AreaStore)
    → IsDocumented s.satisfies size
    → IsAreaAnswered s size rebuild body store (post_area s rebuild body store)
unfolding after_create area_reply
post_area-IsAreaAnswered s size rebuild body store doc =
    elim (Bool-cases (is_area_refused s body)) [
      | inl is ↦
          subst (IsAreaAnswered s size rebuild body store)
            (sym (post_area-refused s rebuild body store is)) (area_refused is)
      | inr passed ↦
          let (dto, read, storable) = area_dto_of-IsStorable s size body doc passed in
          let reached = post_area-passed s rebuild body store dto in
          elim (create_area-cases s.creation dto store) [
            | inl (failure, ran) ↦
                subst (IsAreaAnswered s size rebuild body store)
                  (sym (reached (refused failure) store passed read ran))
                  (area_fails dto storable failure (ap (λ r. r.0) ran))
            | inr (valid, (answer, tables)) ↦
                let later = (create_area s.creation dto store).1 in
                subst (IsAreaAnswered s size rebuild body store)
                  (sym (
                    reached (created (entity_of s.creation dto)) later passed read
                      (ap (λ r. (r, later)) answer)))
                  (area_commits dto storable valid later tables)
          ]
    ]
