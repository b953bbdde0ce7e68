-- ===== src/Tests/Filter.antt =====
-- Exceptions of a database driver, of a publish and of a body parser.
use geofence_location.Prelude.{◌≡◌, ◌≢◌, ◌↔◌, refl, true, none, [], ◌∷◌}
use geofence_location.Filter.{
  undefined, boolean, number, string, Thrown, Exception, object, is_transient_timeout,
  as_exposed_client_error, http_response, other_response, catch, unavailable_response,
  internal_response, house_response,
}
use geofence_location.Filter.Hiding.{IsInternal, retry_after_iff}

unfoldable filter_runs : Unit {0}
unfolding is_transient_timeout as_exposed_client_error http_response other_response catch
filter_runs = tt

abbrev plain : Thrown
plain = record {
  status_code = undefined;
  status = undefined;
  expose = undefined;
  message = string "connection to 10.0.0.7 refused";
  code = undefined;
  driver_error_code = undefined;
  transient_publish_failure = undefined;
}

-- a statement timeout, wrapped by the ORM, and a publish that was not confirmed
abbrev query_canceled_error : Thrown
query_canceled_error = record plain { driver_error_code = string "57014" }

abbrev query_canceled : Exception
query_canceled = object query_canceled_error

abbrev unconfirmed : Exception
unconfirmed =
    object (record plain { transient_publish_failure = boolean true; message = string "x" })

-- body-parser's
abbrev too_large : Exception
too_large = object (record plain {
  status_code = number 413;
  expose = boolean true;
  message = string "request entity too large";
})

query_canceled-IsInternal : IsInternal query_canceled
unfolding filter_runs
query_canceled-IsInternal = record { no_http = λ s p o e. cc; not_exposed = refl }

unconfirmed-IsInternal : IsInternal unconfirmed
unfolding filter_runs
unconfirmed-IsInternal = record { no_http = λ s p o e. cc; not_exposed = refl }

retry_after_iff_example : ((catch query_canceled).retry_after ≢ none) ↔ (
    IsInternal query_canceled
    × (is_transient_timeout query_canceled ≡ true)
    × (catch query_canceled ≡ unavailable_response))
retry_after_iff_example = retry_after_iff query_canceled

refused_hidden : catch (object plain) ≡ internal_response
unfolding filter_runs
refused_hidden = refl

too_large_shown : catch too_large ≡ house_response 413 ("request entity too large" ∷ [])
unfolding filter_runs
too_large_shown = refl

-- the same without the mark
too_large_hidden :
    catch (object (record plain { status_code = number 413; message = string "at 10.0.0.7" }))
    ≡ internal_response
unfolding filter_runs
too_large_hidden = refl
