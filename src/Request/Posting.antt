-- ===== src/Request/Posting.antt =====
-- POST /locations, as src/app.module.ts puts it together: the ValidationPipe, the controller with
-- `accept` behind it, the envelope of src/common/interceptors/response-transform.interceptor.ts, and
-- the filter. Nest's pipe is a parameter in what it forbids beyond the decorators, and in its texts.
use Prim.Native.String
use geofence_location.Prelude.{
  ℕ, String, Bool, true, false, ◌||◌, not, Option, none, some, List, [], ◌∷◌, Number, if◌then◌else◌,
}
use geofence_location.Areas.GeoJson.{Members}
use geofence_location.Locations.{ReportLocationDto}
use geofence_location.Mq.{
  Outcome, Reason, not_connected, confirm_not_received, broker_rejected, publish_threw,
}
use geofence_location.Ingest.{Answer, accepted, too_uncertain, mq_unavailable, Published, accept}
use geofence_location.Filter.{
  undefined, boolean, string, with_message, Exception, http_exception, object, Response, catch,
}
use geofence_location.Request.{Validator, location_rules, refused_properties, dto_of, ◌>>=◌}

-- ResponseTransformInterceptor: a payload as it is, or in the envelope with status and time
pub data Transformed {ℓ} (A : Type ℓ) : Type ℓ where
  untouched : A → Transformed A
  enveloped : ℕ → ℕ → A → Transformed A

unfoldable pub intercept {ℓ} : {A : Type ℓ} → Bool → ℕ → ℕ → A → Transformed A
intercept skip status_code now data_of =
    if skip then untouched data_of else enveloped status_code now data_of

-- What a request meets: the libraries, the broker, the fresh id, the time, and how numbers print.
pub record Setting : Type 0 where
  pub satisfies : Validator
  pub forbids : Members → Bool
  pub messages : List String → Members → List String
  pub date_number : String → ℕ
  pub print : Number → String
  pub publish : Published → Outcome
  pub event_id : ℕ
  pub now : ℕ

-- the reply: the id of the event in its envelope, or a response of the filter
pub data Reply : Type 0 where
  succeeded : Transformed ℕ → Reply
  failed : Response → Reply

abbrev pub accepted_status : ℕ
accepted_status = 202

abbrev pub bad_request_exception : List String → Exception
bad_request_exception lines = http_exception 400 (with_message (some lines)) "Bad Request Exception"

-- the UnprocessableEntityException of `accept`
abbrev pub uncertain_text : (Number → String) → Option Number → String
uncertain_text print none = ""  -- not reached
uncertain_text print (some accuracy) =
    String.◌++◌ (String.◌++◌ "accuracy " (print accuracy))
      "m exceeds the usable maximum of 100m: a reading this uncertain cannot be checked against area boundaries"

abbrev pub unprocessable_exception : String → Exception
unprocessable_exception line = http_exception 422 (with_message (some (line ∷ []))) line

abbrev pub reason_text : Reason → String
reason_text not_connected = "not connected"
reason_text confirm_not_received = "confirm not received within 5000ms"
reason_text broker_rejected = "broker rejected the publish (nack)"
reason_text (publish_threw message) = message

-- MqUnavailableError
abbrev pub mq_unavailable_error : Reason → Exception
mq_unavailable_error reason = object (record {
  status_code = undefined;
  status = undefined;
  expose = undefined;
  message = string (String.◌++◌ "message broker unavailable: " (reason_text reason));
  code = undefined;
  driver_error_code = undefined;
  transient_publish_failure = boolean true;
})

-- what becomes of the end of `accept`
unfoldable pub reply_of : Setting → ReportLocationDto → Answer → Reply
unfolding intercept catch
reply_of s dto (accepted event_id) = succeeded (intercept false accepted_status s.now event_id)
reply_of s dto too_uncertain =
    failed (catch (unprocessable_exception (uncertain_text s.print dto.accuracy)))
reply_of s dto (mq_unavailable reason) = failed (catch (mq_unavailable_error reason))

abbrev pub is_empty : List String → Bool
is_empty [] = true
is_empty (_ ∷ _) = false

-- the handler, for a body that the pipe let through
unfoldable pub report_location : Setting → ReportLocationDto → Reply × List Published
unfolding accept reply_of
report_location s dto =
    let answer = accept s.publish s.event_id s.now dto in (reply_of s dto answer.0, answer.1)

-- whether the pipe refuses a body
unfoldable pub is_refused : Setting → Members → Bool
unfolding refused_properties
is_refused s body =
    s.forbids body || not (is_empty (refused_properties s.satisfies body location_rules))

-- The reply to a body, and what was handed to `publish`. None would stand for a body that the pipe
-- lets through with a field that is not of its type.
unfoldable pub post_location : Setting → Members → Option (Reply × List Published)
unfolding is_refused dto_of report_location catch
post_location s body =
    if is_refused s body
    then some (
      failed (
          catch (
            bad_request_exception
              (s.messages (refused_properties s.satisfies body location_rules) body))),
      [],
    )
    else do dto ← dto_of s.date_number body; some (report_location s dto)
