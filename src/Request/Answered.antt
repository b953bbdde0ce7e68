-- ===== src/Request/Answered.antt =====
-- The replies of POST /locations, from the body of src/locations/dto/report-location.dto.ts to the
-- response of src/common/filters/all-exceptions.filter.ts.
use geofence_location.Prelude.{
  ℕ, refl, ◌≡◌, sym, ◌∙◌, ap, subst, inl, inr, String, Bool, true, false, not, ◌||◌, Option, some,
  List, [], ◌∷◌, Bool-cases,
}
use geofence_location.Areas.GeoJson.{Members}
use geofence_location.Locations.{ReportLocationDto, is_too_uncertain}
use geofence_location.Mq.{resolved, Reason, rejected}
use geofence_location.Ingest.{
  Answer, accepted, too_uncertain, mq_unavailable, Published, event_of, published_of, accept,
}
use geofence_location.Ingest.Accepting.{IsCarried, accept-cases}
use geofence_location.Filter.{
  as_exposed_client_error, is_transient_timeout, house_response, http_response, other_response,
  unavailable_response, catch,
}
use geofence_location.Request.{location_rules, refused_properties, dto_of}
use geofence_location.Request.Typed.{IsDocumented}
use geofence_location.Request.Reportable.{IsReportable, dto_of-IsReportable}
use geofence_location.Request.Posting.{
  enveloped, intercept, Setting, Reply, succeeded, failed, uncertain_text, reply_of, is_empty,
  is_refused, report_location, post_location,
}

-- A body that is let through, as the DTO that keeps its promises.
pub record IsLetThrough (s : Setting) (size : String → ℕ) (body : Members) (dto : ReportLocationDto)
    : Type 0 where
  pub not_refused : is_refused s body ≡ false
  pub typed : dto_of s.date_number body ≡ some dto
  pub reportable : IsReportable size dto

-- The four ways in which a body is answered.
pub data IsAnswered (s : Setting) (size : String → ℕ) (body : Members)
    : Option (Reply × List Published) → Type 0 where
  refuses :
      is_refused s body ≡ true
      → IsAnswered s size body (
          some (
            failed (
                house_response 400
                  (s.messages (refused_properties s.satisfies body location_rules) body)),
            [],
          ))
  rejects :
      (dto : ReportLocationDto)
      → IsLetThrough s size body dto
      → is_too_uncertain dto.accuracy ≡ true
      → IsAnswered s size body
          (some (failed (house_response 422 (uncertain_text s.print dto.accuracy ∷ [])), []))
  invites_retry :
      (dto : ReportLocationDto)
      → IsLetThrough s size body dto
      → is_too_uncertain dto.accuracy ≡ false
      → IsCarried dto s.event_id s.now (published_of s.event_id s.now dto)
      → (reason : Reason) → s.publish (published_of s.event_id s.now dto) ≡ rejected reason
      → IsAnswered s size body
          (some (failed unavailable_response, published_of s.event_id s.now dto ∷ []))
  accepts :
      (dto : ReportLocationDto)
      → IsLetThrough s size body dto
      → is_too_uncertain dto.accuracy ≡ false
      → IsCarried dto s.event_id s.now (published_of s.event_id s.now dto)
      → s.publish (published_of s.event_id s.now dto) ≡ resolved
      → IsAnswered s size body (
          some (succeeded (enveloped 202 s.now s.event_id), published_of s.event_id s.now dto ∷ []))

reply_of-accepted :
    (s : Setting) (dto : ReportLocationDto) (event_id : ℕ)
    → reply_of s dto (accepted event_id) ≡ succeeded (enveloped 202 s.now event_id)
unfolding reply_of intercept
reply_of-accepted s dto event_id = refl

reply_of-too_uncertain :
    (s : Setting) (dto : ReportLocationDto)
    → reply_of s dto too_uncertain
      ≡ failed (house_response 422 (uncertain_text s.print dto.accuracy ∷ []))
unfolding reply_of catch http_response
reply_of-too_uncertain s dto = refl

reply_of-mq_unavailable :
    (s : Setting) (dto : ReportLocationDto) (reason : Reason)
    → reply_of s dto (mq_unavailable reason) ≡ failed unavailable_response
unfolding reply_of catch other_response as_exposed_client_error is_transient_timeout
reply_of-mq_unavailable s dto reason = refl

pub neither-nil : (b : Bool) (l : List String) → b || not (is_empty l) ≡ false → l ≡ []
neither-nil true l e = cc
neither-nil false [] e = refl
neither-nil false (s ∷ l) e = cc

is_refused-nothing :
    (s : Setting) (body : Members)
    → is_refused s body ≡ false
    → refused_properties s.satisfies body location_rules ≡ []
unfolding is_refused
is_refused-nothing s body passed =
    neither-nil (s.forbids body) (refused_properties s.satisfies body location_rules) passed

post_location-refused :
    (s : Setting) (body : Members)
    → is_refused s body ≡ true
    → post_location s body
      ≡ some (
        failed (
            house_response 400
              (s.messages (refused_properties s.satisfies body location_rules) body)),
        [],
      )
unfolding post_location catch http_response
post_location-refused s body refused = rw refused refl

post_location-passed :
    (s : Setting) (body : Members) (dto : ReportLocationDto)
    → is_refused s body ≡ false
    → dto_of s.date_number body ≡ some dto
    → post_location s body
      ≡ some (
        reply_of s dto (accept s.publish s.event_id s.now dto).0,
        (accept s.publish s.event_id s.now dto).1,
      )
unfolding post_location report_location
post_location-passed s body dto passed there = rw (passed, there) refl

passes_gate :
    (dto : ReportLocationDto) (event_id now : ℕ)
    → IsCarried dto event_id now (published_of event_id now dto)
    → is_too_uncertain dto.accuracy ≡ false
unfolding published_of event_of
passes_gate dto event_id now carried = carried.passes_gate

module _ (s : Setting) (size : String → ℕ) (body : Members) (dto : ReportLocationDto) where
  IsAnswered-replied :
      (answer : Answer) (reply : Reply) (sent : List Published)
      → (accept s.publish s.event_id s.now dto).0 ≡ answer
      → (accept s.publish s.event_id s.now dto).1 ≡ sent
      → reply_of s dto answer ≡ reply
      → IsAnswered s size body (some (reply, sent))
      → IsAnswered s size body (
          some (
            reply_of s dto (accept s.publish s.event_id s.now dto).0,
            (accept s.publish s.event_id s.now dto).1,
          ))
  IsAnswered-replied answer reply sent ended published replied h =
      subst (λ r. IsAnswered s size body (some (r, (accept s.publish s.event_id s.now dto).1)))
        (sym (ap (reply_of s dto) ended ∙ replied))
        (subst (λ l. IsAnswered s size body (some (reply, l))) (sym published) h)

  -- the reply to a body that is let through, by the end of `accept`
  IsAnswered-passed :
      IsLetThrough s size body dto
      → IsAnswered s size body (
          some (
            reply_of s dto (accept s.publish s.event_id s.now dto).0,
            (accept s.publish s.event_id s.now dto).1,
          ))
  IsAnswered-passed passed = elim (accept-cases s.publish s.event_id s.now dto) [
    | inl (ended, uncertain) ↦
        IsAnswered-replied _ _ _ (ap (λ a. a.0) ended) (ap (λ a. a.1) ended)
          (reply_of-too_uncertain s dto) (rejects dto passed uncertain)
    | inr (carried, sent, inl (confirmed, ended)) ↦
        IsAnswered-replied _ _ _ ended sent (reply_of-accepted s dto s.event_id)
          (accepts dto passed (passes_gate dto s.event_id s.now carried) carried confirmed)
    | inr (carried, sent, inr (reason, failed_with, ended)) ↦
        IsAnswered-replied _ _ _ ended sent (reply_of-mq_unavailable s dto reason) (
          invites_retry dto passed (passes_gate dto s.event_id s.now carried) carried reason
            failed_with)
  ]

-- A body is answered in one of four ways, if class-validator does what it documents. With the 400,
-- and nothing published, if the pipe forbids a property or a decorator refuses one. Any other body
-- is a DTO of the types that its class names: a user of 1 to 64 characters, a position on the globe,
-- a device and its seq both or neither, an accuracy that is not negative. It gets the 422, with
-- nothing published, if its accuracy is above the maximum. Else one event is published
-- under the user's id, which the worker takes for an event of its version, with the client's data,
-- and does not reject by the same gate; and the reply is the 202 with the event's id in the envelope,
-- if the publish resolves, or the 503 that invites a retry, if not. No body leads to a 500.
pub post_location-IsAnswered :
    (s : Setting) (size : String → ℕ) (body : Members)
    → IsDocumented s.satisfies size
    → IsAnswered s size body (post_location s body)
post_location-IsAnswered s size body doc = elim (Bool-cases (is_refused s body)) [
  | inl refused ↦
      subst (IsAnswered s size body) (sym (post_location-refused s body refused)) (refuses refused)
  | inr passed ↦
      let (dto, typed, reportable) =
        dto_of-IsReportable s.satisfies size doc s.date_number body
          (is_refused-nothing s body passed) in
      subst (IsAnswered s size body) (sym (post_location-passed s body dto passed typed)) (
        IsAnswered-passed s size body dto
          (record { not_refused = passed; typed = typed; reportable = reportable }))
]
