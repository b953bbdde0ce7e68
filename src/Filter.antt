-- ===== src/Filter.antt =====
-- src/common/filters/all-exceptions.filter.ts: how an exception of the API becomes a response.
pub mod Hiding
use text.Mathlib.Text.{find?}
use geofence_location.Prelude.{
  ℕ, String, Bool, true, false, not, ◌&&◌, ◌||◌, ◌==◌, Option, none, some, List, [], ◌∷◌, ltb, leb,
  if◌then◌else◌,
}

-- A property of a thrown object, as far as the filter tells values apart; `number` is an integer
-- that is not negative, and `other` anything else that is neither null nor undefined.
pub data Property : Type 0 where
  undefined null other : Property
  boolean : Bool → Property
  number : ℕ → Property
  string : String → Property

-- The properties that the filter reads. `driver_error_code` is undefined without a driverError.
pub record Thrown : Type 0 where
  pub status_code : Property
  pub status : Property
  pub expose : Property
  pub message : Property
  pub code : Property
  pub driver_error_code : Property
  pub transient_publish_failure : Property

-- The payload of an HttpException: a text, an object with a message of one or more lines, or without.
pub data Payload : Type 0 where
  payload_text : String → Payload
  with_message : Option (List String) → Payload
  without_message : ℕ → Payload

pub data Exception : Type 0 where
  http_exception : ℕ → Payload → String → Exception
  object : Thrown → Exception
  primitive : String → Exception

-- What is sent: a payload as it is (by its number), or the house shape, which also has the time and
-- the path; and the Retry-After header.
pub data Body : Type 0 where
  verbatim : ℕ → Body
  house : ℕ → List String → Body

pub record Response : Type 0 where
  pub status_code : ℕ
  pub body : Body
  pub retry_after : Option ℕ

abbrev pub postgres_query_canceled : String
postgres_query_canceled = "57014"

abbrev pub postgres_idle_txn_killed : String
postgres_idle_txn_killed = "25P03"

abbrev pub pg_pool_acquire_timeout_message : String
pg_pool_acquire_timeout_message = "timeout exceeded when trying to connect"

abbrev pub retry_after_seconds : ℕ
retry_after_seconds = 5

-- `a ?? b`
abbrev pub nullish : Property → Property → Property
nullish undefined b = b
nullish null b = b
nullish a b = a

abbrev pub is_true : Property → Bool
is_true (boolean b) = b
is_true _ = false

abbrev pub is_text : String → Property → Bool
is_text t (string s) = s == t
is_text t _ = false

abbrev pub includes : String → Property → Bool
includes t (string s) = elim (find? s t) [ none ↦ false | some _ ↦ true ]
includes t _ = false

-- asExposedClientError
abbrev pub exposed_with : Property → Property → Property → Option (ℕ × String)
exposed_with (boolean true) (number n) (string message) =
    if leb 400 n && ltb n 500 then some (n, message) else none
exposed_with _ _ _ = none

unfoldable pub as_exposed_client_error : Exception → Option (ℕ × String)
as_exposed_client_error (object t) =
    exposed_with t.expose (nullish t.status_code t.status) t.message
as_exposed_client_error _ = none

unfoldable pub is_transient_timeout : Exception → Bool
is_transient_timeout (object t) =
    let code = nullish t.driver_error_code t.code in
    is_true t.transient_publish_failure
    || is_text postgres_query_canceled code
    || is_text postgres_idle_txn_killed code
    || includes pg_pool_acquire_timeout_message t.message
is_transient_timeout _ = false

abbrev pub house_response : ℕ → List String → Response
house_response status_code message = record {
  status_code = status_code;
  body = house status_code message;
  retry_after = none;
}

-- the first branch of `catch`
unfoldable pub http_response : ℕ → Payload → String → Response
http_response status_code (payload_text message) own = house_response status_code (message ∷ [])
http_response status_code (with_message (some lines)) own = house_response status_code lines
http_response status_code (with_message none) own = house_response status_code (own ∷ [])
http_response status_code (without_message payload) own = record {
  status_code = status_code;
  body = verbatim payload;
  retry_after = none;
}

abbrev pub unavailable_response : Response
unavailable_response = record {
  status_code = 503;
  body = house 503 ("Service temporarily unavailable, retry later" ∷ []);
  retry_after = some retry_after_seconds;
}

abbrev pub internal_response : Response
internal_response = house_response 500 ("Internal server error" ∷ [])

-- the branches of `catch` for what is no HttpException
unfoldable pub other_response : Exception → Response
unfolding as_exposed_client_error is_transient_timeout
other_response e = elim (as_exposed_client_error e) [
  | some exposed ↦ house_response exposed.0 (exposed.1 ∷ [])
  | none ↦ if is_transient_timeout e then unavailable_response else internal_response
]

unfoldable pub catch : Exception → Response
unfolding http_response other_response
catch (http_exception status_code payload own) = http_response status_code payload own
catch (object t) = other_response (object t)
catch (primitive s) = other_response (primitive s)
