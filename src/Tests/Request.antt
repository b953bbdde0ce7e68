-- ===== src/Tests/Request.antt =====
-- Bodies of POST /locations, with a validator that does what class-validator documents.
use Prim.Native.String
use geofence_location.Prelude.{
  ℕ, ◌%◌, ◌^◌, ◌≡◌, refl, String, Bool, true, false, not, ◌==◌, Option, none, some, [], ◌∷◌, Number,
  whole, ltb_ℤ, leb, eqb, eqb_iff, leb→le, arith,
}
use geofence_location.Areas.GeoJson.{
  Value, null, boolean, number, text, array, object, finite, not_finite, Members, nothing, member,
  property_of,
}
use geofence_location.Locations.{ReportLocationDto, is_too_uncertain}
use geofence_location.Mq.{resolved, rejected, confirm_not_received}
use geofence_location.Ingest.{event_of, published_of, accept}
use geofence_location.Filter.{
  as_exposed_client_error, is_transient_timeout, house_response, unavailable_response,
  http_response, other_response, catch,
}
use geofence_location.Request.{
  is_string, is_not_empty, is_number, is_int, is_date_string, max_length, minimum, maximum,
  Validator, applies, satisfies_each, passes, refused_properties, text_of, number_of, natural_of,
  dto_of,
}
use geofence_location.Request.Typed.{units, IsDocumented}
use geofence_location.Request.Posting.{
  Setting, failed, succeeded, enveloped, intercept, uncertain_text, reply_of, is_refused,
  report_location, post_location,
}
use geofence_location.Request.Answered.{IsAnswered, post_location-IsAnswered}

abbrev pub holds {ℓ} : {A : Type ℓ} → Option A → (A → Bool) → Bool
holds none test = false
holds (some a) test = test a

-- a validator; its test of a date takes any text
abbrev pub check : Validator
check is_string value = holds (text_of value) (λ _. true)
check is_date_string value = holds (text_of value) (λ _. true)
check is_not_empty value = holds (text_of value) (λ s. not (s == ""))
check (max_length k) value = holds (text_of value) (λ s. leb (String.count s) k)
check is_number value = holds (number_of value) (λ _. true)
check is_int value = holds (number_of value) (λ n. eqb (units n % 2 ^ 1074) 0)
check (minimum a) value = holds (number_of value) (λ n. not (ltb_ℤ n a))
check (maximum a) value = holds (number_of value) (λ n. not (ltb_ℤ a n))

text_there :
    (value : Option Value)
    → holds (text_of value) (λ _. true) ≡ true
    → (s : String) × (value ≡ some (text s))
text_there none e = cc
text_there (some null) e = cc
text_there (some (boolean b)) e = cc
text_there (some (number n)) e = cc
text_there (some (text s)) e = (s, refl)
text_there (some (array vs)) e = cc
text_there (some (object ms)) e = cc

number_there :
    (value : Option Value) (test : Number → Bool)
    → holds (number_of value) test ≡ true
    → (n : Number) × (value ≡ some (number (finite n))) × (test n ≡ true)
number_there none test e = cc
number_there (some null) test e = cc
number_there (some (boolean b)) test e = cc
number_there (some (number (finite n))) test e = (n, refl, e)
number_there (some (number not_finite)) test e = cc
number_there (some (text s)) test e = cc
number_there (some (array vs)) test e = cc
number_there (some (object ms)) test e = cc

pub check-IsDocumented : IsDocumented check String.count
check-IsDocumented = record {
  is_string_only = text_there;
  is_date_only = text_there;
  is_number_only = λ value e. let (n, there, _) = number_there value (λ _. true) e in (n, there);
  is_int_only = λ value e.
      let (n, there, whole_number) = number_there value (λ n. eqb (units n % 2 ^ 1074) 0) e in
      (n, there, (eqb_iff (units n % 2 ^ 1074) 0).0 whole_number);
  not_empty = λ s e empty. cc (e, empty);
  not_longer = λ k s e. leb→le (String.count s) k e;
  not_below = λ a n e. ground arith;
  not_above = λ a n e. ground arith;
}

unfoldable pub requests : Unit {0}
unfolding whole is_too_uncertain event_of published_of accept as_exposed_client_error
    is_transient_timeout http_response other_response catch applies satisfies_each passes
    refused_properties natural_of dto_of intercept reply_of is_refused report_location post_location
    property_of
requests = tt

abbrev here : Setting
here = record {
  satisfies = check;
  forbids = λ _. false;
  messages = λ refused _. refused;
  date_number = String.count;
  print = λ _. "-";
  publish = λ _. resolved;
  event_id = 77;
  now = 6;
}

abbrev numbered : String → ℕ → Members → Members
numbered name n rest = member name (number (finite (whole n))) rest

abbrev reported : Members
reported = member "userId" (text "ann") (numbered "lat" 41 (numbered "lng" 28 nothing))

abbrev with_device : Members
with_device = member "deviceId" (text "phone") (numbered "seq" 42 reported)

post_location-IsAnswered_example :
    IsAnswered here String.count with_device (post_location here with_device)
post_location-IsAnswered_example =
    post_location-IsAnswered here String.count with_device check-IsDocumented

-- a seq without its device
half_refused :
    post_location here (numbered "seq" 42 reported)
    ≡ some (failed (house_response 400 ("deviceId" ∷ [])), [])
unfolding requests
half_refused = refl

north_refused :
    post_location here
      (member "userId" (text "ann") (numbered "lat" 91 (numbered "lng" 28 nothing)))
    ≡ some (failed (house_response 400 ("lat" ∷ [])), [])
unfolding requests
north_refused = refl

abbrev expected : ReportLocationDto
expected = record {
  user_id = "ann";
  lat = whole 41;
  lng = whole 28;
  device_id = some "phone";
  seq = some 42;
  captured_at = none;
  observed_at = none;
  accuracy = none;
}

device_accepted :
    post_location here with_device
    ≡ some (succeeded (enveloped 202 6 77), published_of 77 6 expected ∷ [])
unfolding requests
device_accepted = refl

unconfirmed_retried :
    post_location (record here { publish = λ _. rejected confirm_not_received }) with_device
    ≡ some (failed unavailable_response, published_of 77 6 expected ∷ [])
unfolding requests
unconfirmed_retried = refl

-- Nothing bounds a seq from above.
huge_seq_accepted :
    post_location here (member "deviceId" (text "phone") (numbered "seq" (2 ^ 64) reported))
    ≡ some (
      succeeded (enveloped 202 6 77),
      published_of 77 6 (record expected { seq = some (2 ^ 64) }) ∷ [],
    )
unfolding requests
huge_seq_accepted = refl

uncertain_rejected :
    post_location here (numbered "accuracy" 101 reported)
    ≡ some (failed (house_response 422 (uncertain_text here.print (some (whole 101)) ∷ [])), [])
unfolding requests
uncertain_rejected = refl
