-- ===== src/Request/NewArea.antt =====
-- POST /areas: src/areas/dto/create-area.dto.ts, the pipe of src/app.module.ts, the controller with
-- `create` behind it, the envelope and the filter. A boundary is taken by its type and coordinates.
use geofence_location.Prelude.{
  ℕ, String, Bool, true, false, ◌||◌, not, Option, none, some, List, [], ◌∷◌, ◌++◌, if◌then◌else◌,
}
use geofence_location.Database.{DriverError}
use geofence_location.Areas.{Position, Polygon}
use geofence_location.Areas.GeoJson.{
  Value, number, finite, array, Values, nil, cons, Members, property, property_of,
  geo_json_polygon_failure,
}
use geofence_location.Areas.Snapshot.{Rebuild}
use geofence_location.Areas.Service.{
  CreateAreaDto, AreaEntity, Creation, CreateFailure, bad_request, create_query_failed,
  refresh_failed, Created, created, refused, AreaStore, create_area, answer_after_refresh,
}
use geofence_location.Filter.{
  undefined, string, Thrown, with_message, Exception, http_exception, object, Response, catch,
}
use geofence_location.Request.{
  always, Checked, name_rules, Validator, refused_properties, text_of, ◌>>=◌,
}
use geofence_location.Request.Posting.{Transformed, intercept, bad_request_exception, is_empty}

abbrev pub area_name_max_length : ℕ
area_name_max_length = 255

abbrev pub area_rules : List Checked
area_rules =
    record { name = "name"; condition = always; rules = name_rules area_name_max_length } ∷ []

-- `@IsGeoJsonPolygon()`
unfoldable pub is_geo_json_polygon : Option Value → Bool
unfolding geo_json_polygon_failure
is_geo_json_polygon none = false
is_geo_json_polygon (some value) = elim (geo_json_polygon_failure value) [
  | none ↦ true
  | some _ ↦ false
]

unfoldable pub refused_area_properties : Validator → Members → List String
unfolding refused_properties is_geo_json_polygon
refused_area_properties satisfies body =
    refused_properties satisfies body area_rules
    ++ (if is_geo_json_polygon (property_of "boundary" body) then [] else "boundary" ∷ [])

-- the coordinates of a value that is a polygon
unfoldable pub position_of : Value → Option Position
position_of (array (cons (number (finite lng)) (cons (number (finite lat)) nil))) =
    some (record { lng = lng; lat = lat })
position_of _ = none

unfoldable pub ring_of : Values → Option (List Position)
unfolding position_of
ring_of nil = some []
ring_of (cons value rest) =
    let later = ring_of rest in
    do position ← position_of value; positions ← later; some (position ∷ positions)

unfoldable pub rings_of : Values → Option (List (List Position))
unfolding ring_of
rings_of nil = some []
rings_of (cons (array values) rest) =
    let later = rings_of rest in do ring ← ring_of values; rings ← later; some (ring ∷ rings)
rings_of (cons _ rest) = none

abbrev pub array_of : Option Value → Option Values
array_of (some (array values)) = some values
array_of _ = none

unfoldable pub polygon_of : Value → Option Polygon
unfolding property rings_of
polygon_of value = do
  values ← array_of (property "coordinates" value)
  rings ← rings_of values
  some (record { coordinates = rings })

-- the DTO of a body whose properties have the types of its class
unfoldable pub area_dto_of : Members → Option CreateAreaDto
unfolding polygon_of
area_dto_of body = do
  name ← text_of (property_of "name" body)
  value ← property_of "boundary" body
  boundary ← polygon_of value
  some (record { name = name; boundary = boundary })

-- What a request meets: the libraries, PostgreSQL, the time, and the errors that are thrown.
pub record AreaSetting : Type 0 where
  pub satisfies : Validator
  pub forbids : Members → Bool
  pub messages : List String → Members → List String
  pub creation : Creation
  pub now : ℕ
  pub query_message : DriverError → String
  pub refresh_error : Thrown

pub data AreaReply : Type 0 where
  stored : Transformed AreaEntity → AreaReply
  not_stored : Response → AreaReply

abbrev pub created_status : ℕ
created_status = 201

-- what `create` throws
abbrev pub create_exception : AreaSetting → CreateFailure → Exception
create_exception s (bad_request message) =
    http_exception 400 (with_message (some (message ∷ []))) message
create_exception s (create_query_failed e) = object (record {
  status_code = undefined;
  status = undefined;
  expose = undefined;
  message = string (s.query_message e);
  code = string e.code;
  driver_error_code = string e.code;
  transient_publish_failure = undefined;
})
create_exception s refresh_failed = object s.refresh_error

-- the reply to an end of `create`; none while its refresh is awaited
unfoldable pub area_reply : AreaSetting → Option Created → Option AreaReply
unfolding intercept catch
area_reply s none = none
area_reply s (some (created area)) = some (stored (intercept false created_status s.now area))
area_reply s (some (refused failure)) = some (not_stored (catch (create_exception s failure)))

-- after the commit, or the failure before it: the refresh decides the reply
unfoldable pub after_create :
    AreaSetting → Rebuild → Created × AreaStore → Option AreaReply × AreaStore
unfolding area_reply answer_after_refresh
after_create s rebuild (created area, store) =
    (area_reply s (answer_after_refresh area rebuild), store)
after_create s rebuild (refused failure, store) = (area_reply s (some (refused failure)), store)

-- whether the pipe refuses a body
unfoldable pub is_area_refused : AreaSetting → Members → Bool
unfolding refused_area_properties
is_area_refused s body = s.forbids body || not (is_empty (refused_area_properties s.satisfies body))

-- The reply to a body, where its refresh has come to `rebuild`, and the store. None would stand for
-- a body that the pipe lets through with a field that is not of its type.
unfoldable pub post_area :
    AreaSetting → Rebuild → Members → AreaStore → Option (Option AreaReply × AreaStore)
unfolding is_area_refused area_dto_of create_area after_create catch
post_area s rebuild body store =
    if is_area_refused s body
    then some (
      some (
          not_stored (
            catch (
              bad_request_exception (s.messages (refused_area_properties s.satisfies body) body)))),
      store,
    )
    else do dto ← area_dto_of body; some (after_create s rebuild (create_area s.creation dto store))
