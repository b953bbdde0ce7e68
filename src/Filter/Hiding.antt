-- ===== src/Filter/Hiding.antt =====
-- What a response of src/common/filters/all-exceptions.filter.ts tells, and when it invites a
-- retry.
use geofence_location.Prelude.{
  ℕ, ◌≤◌, ◌<◌, String, [], ◌∷◌, ◌⊎◌, ◌≡◌, ◌≢◌, ◌↔◌, inl, inr, refl, ◌∙◌, ap, true, none, some,
  arith, if◌then◌else◌, Option-cases, Bool-cases,
}
use geofence_location.Filter.{
  undefined, null, boolean, number, string, Thrown, Response, house_response, Payload, payload_text,
  with_message, without_message, Exception, http_exception, object, primitive,
  as_exposed_client_error, is_transient_timeout, unavailable_response, internal_response,
  http_response, other_response, catch,
}

-- neither an HttpException nor marked as safe to show
pub record IsInternal (e : Exception) : Type 0 where
  pub no_http :
      (status_code : ℕ) (payload : Payload) (own : String)
      → e ≢ http_exception status_code payload own
  pub not_exposed : as_exposed_client_error e ≡ none

internal-eq :
    (e : Exception)
    → IsInternal e
    → catch e ≡ (if is_transient_timeout e then unavailable_response else internal_response)
unfolding catch other_response
internal-eq (http_exception status_code payload own) h =
    absurd (h.no_http status_code payload own refl)
internal-eq (object t) h = ground (arith, h.not_exposed)
internal-eq (primitive s) h = ground (arith, h.not_exposed)

-- The object is marked as safe to show, has the status of a client's error, and its message is shown
-- with this status.
pub record IsExposed (t : Thrown) (r : Response) : Type 0 where
  pub status : ℕ
  pub message : String
  pub marked : t.expose ≡ boolean true
  pub status_read :
      (t.status_code ≡ number status)
      ⊎ (((t.status_code ≡ undefined) ⊎ (t.status_code ≡ null)) × (t.status ≡ number status))
  pub client_error : (400 ≤ status) × (status < 500)
  pub message_read : t.message ≡ string message
  pub shown : r ≡ house_response status (message ∷ [])

retry_after-http :
    (status_code : ℕ) (payload : Payload) (own : String)
    → (http_response status_code payload own).retry_after ≡ none
unfolding http_response
retry_after-http status_code (payload_text message) own = refl
retry_after-http status_code (with_message none) own = refl
retry_after-http status_code (with_message (some lines)) own = refl
retry_after-http status_code (without_message payload) own = refl

other_response-retry :
    (e : Exception)
    → (other_response e).retry_after ≢ none
    → (as_exposed_client_error e ≡ none) × (is_transient_timeout e ≡ true)
unfolding other_response
other_response-retry e h = elim (Option-cases (as_exposed_client_error e)) [
  | inr (exposed, shown) ↦ absurd (h (ground arith))
  | inl hidden ↦ elim (Bool-cases (is_transient_timeout e)) [
    | inl transient ↦ (hidden, transient)
    | inr lasting ↦ absurd (h (ground arith))
  ]
]

retry_after-IsInternal :
    (e : Exception) → (catch e).retry_after ≢ none → IsInternal e × (is_transient_timeout e ≡ true)
unfolding catch
retry_after-IsInternal (http_exception status_code payload own) h =
    absurd (h (retry_after-http status_code payload own))
retry_after-IsInternal (object t) h =
    let (hidden, transient) = other_response-retry (object t) h in
    (record { no_http = λ s p o e. cc; not_exposed = hidden }, transient)
retry_after-IsInternal (primitive s) h =
    let (hidden, transient) = other_response-retry (primitive s) h in
    (record { no_http = λ s p o e. cc; not_exposed = hidden }, transient)

-- A response invites a retry exactly if the exception is internal and transient, and then it is the
-- 503 that says so.
pub retry_after_iff :
    (e : Exception)
    → ((catch e).retry_after ≢ none)
      ↔ (IsInternal e × (is_transient_timeout e ≡ true) × (catch e ≡ unavailable_response))
retry_after_iff e = (
  λ h.
      let (internal, transient) = retry_after-IsInternal e h in
      (
        internal,
        transient,
        internal-eq e internal
            ∙ ap (λ b. if b then unavailable_response else internal_response) transient,
      ),
  λ h gone. cc (h.2, gone),
)
