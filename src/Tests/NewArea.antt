-- ===== src/Tests/NewArea.antt =====
-- Bodies of POST /areas.
use Prim.Native.String
use geofence_location.Areas.{Position}
use geofence_location.Prelude.{ℕ, ◌≡◌, refl, false, none, some, [], ◌∷◌, whole}
use geofence_location.Areas.GeoJson.{text, Members, nothing, member}
use geofence_location.Areas.Snapshot.{fulfilled, queued}
use geofence_location.Areas.Service.{AreaEntity}
use geofence_location.Filter.{undefined, string, Thrown, house_response, internal_response}
use geofence_location.Request.Posting.{enveloped}
use geofence_location.Request.NewArea.{
  is_geo_json_polygon, refused_area_properties, position_of, ring_of, rings_of, polygon_of,
  area_dto_of, AreaSetting, stored, not_stored, area_reply, after_create, is_area_refused,
  post_area,
}
use geofence_location.Request.Stored.{IsAreaAnswered, post_area-IsAreaAnswered}
use geofence_location.Tests.AreasService.{service_runs, smooth, crossed, check_violated, one_stored}
use geofence_location.Tests.GeoJson.{checks, triangle}
use geofence_location.Tests.Request.{requests, check, check-IsDocumented}

unfoldable area_requests : Unit {0}
unfolding requests checks service_runs is_geo_json_polygon refused_area_properties position_of
    ring_of rings_of polygon_of area_dto_of area_reply after_create is_area_refused post_area
area_requests = tt

abbrev broken : Thrown
broken = record {
  status_code = undefined;
  status = undefined;
  expose = undefined;
  message = string "x";
  code = undefined;
  driver_error_code = undefined;
  transient_publish_failure = undefined;
}

abbrev ready : AreaSetting
ready = record {
  satisfies = check;
  forbids = λ _. false;
  messages = λ refused _. refused;
  creation = smooth;
  now = 60;
  query_message = λ _. "x";
  refresh_error = broken;
}

abbrev yard : Members
yard = member "name" (text "yard") (member "boundary" triangle nothing)

post_area-IsAreaAnswered_example :
    IsAreaAnswered ready String.count fulfilled yard one_stored
      (post_area ready fulfilled yard one_stored)
post_area-IsAreaAnswered_example =
    post_area-IsAreaAnswered ready String.count fulfilled yard one_stored check-IsDocumented

shapeless_refused :
    post_area ready fulfilled (member "boundary" (text "a square") nothing) one_stored
    ≡ some (some (not_stored (house_response 400 ("name" ∷ "boundary" ∷ []))), one_stored)
unfolding area_requests
shapeless_refused = refl

crossed_refused :
    post_area (record ready { creation = crossed }) fulfilled yard one_stored
    ≡ some (
      some (not_stored (house_response 400 ("invalid polygon: Self-intersection[5 5]" ∷ []))),
      one_stored,
    )
unfolding area_requests
crossed_refused = refl

violation_hidden :
    post_area
      (record ready { creation = record smooth { save_fault = some check_violated } })
      fulfilled
      yard
      one_stored
    ≡ some (some (not_stored internal_response), one_stored)
unfolding area_requests
violation_hidden = refl

abbrev side : ℕ → ℕ → Position
side lng lat = record { lng = whole lng; lat = whole lat }

abbrev yard_area : AreaEntity
yard_area = record {
  id = 11;
  name = "yard";
  created_at = 50;
  boundary = record { coordinates = (side 28 41 ∷ side 29 41 ∷ side 29 42 ∷ side 28 41 ∷ []) ∷ [] };
}

-- once the refresh is fulfilled, and before
yard_stored :
    post_area ready fulfilled yard one_stored
    ≡ some (
      some (stored (enveloped 201 60 yard_area)),
      record { rows = yard_area ∷ one_stored.rows; version = 2 },
    )
unfolding area_requests
yard_stored = refl

yard_awaited :
    post_area ready queued yard one_stored
    ≡ some (none, record { rows = yard_area ∷ one_stored.rows; version = 2 })
unfolding area_requests
yard_awaited = refl
