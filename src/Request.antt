-- ===== src/Request.antt =====
-- src/locations/dto/report-location.dto.ts: which bodies of POST /locations the decorators let
-- through, and the DTO that such a body becomes. The body is a JSON object. class-validator is a
-- parameter.
pub mod Typed
pub mod Reportable
pub mod Posting
pub mod Answered
pub mod NewArea
pub mod Stored
use Prim.Native.Nat.{◌/◌}
use geofence_location.Prelude.{
  ℕ, zero, suc, ◌*◌, ◌%◌, ◌^◌, String, Bool, true, false, not, ◌&&◌, ◌||◌, Option, none, some, List,
  [], ◌∷◌, Number, pos, negsuc, whole, eqb, if◌then◌else◌,
}
use geofence_location.Areas.GeoJson.{Value, null, number, text, finite, Members, property_of}
use geofence_location.Locations.{ReportLocationDto}

abbrev pub user_id_max_length : ℕ
user_id_max_length = 64

-- the decorators that check a value
pub data Rule : Type 0 where
  is_string is_not_empty is_number is_int is_date_string : Rule
  max_length : ℕ → Rule
  minimum maximum : Number → Rule

-- when the rules of a property apply: always, under `@IsOptional()`, or under a `@ValidateIf` that
-- asks whether one of two properties is there
pub data Condition : Type 0 where
  always if_given : Condition
  if_either : String → String → Condition

pub record Checked : Type 0 where
  pub name : String
  pub condition : Condition
  pub rules : List Rule

abbrev pub opposite : Number → Number
opposite (pos zero) = pos zero
opposite (pos (suc n)) = negsuc n
opposite (negsuc n) = pos (suc n)

abbrev pub name_rules : ℕ → List Rule
name_rules bound = is_string ∷ is_not_empty ∷ max_length bound ∷ []

abbrev pub within : ℕ → List Rule
within bound = is_number ∷ minimum (opposite (whole bound)) ∷ maximum (whole bound) ∷ []

abbrev pub location_rules : List Checked
location_rules =
    record { name = "userId"; condition = always; rules = name_rules user_id_max_length }
    ∷ record { name = "lat"; condition = always; rules = within 90 }
    ∷ record { name = "lng"; condition = always; rules = within 180 }
    ∷ record {
      name = "deviceId";
      condition = if_either "deviceId" "seq";
      rules = name_rules user_id_max_length;
    }
    ∷ record {
      name = "seq";
      condition = if_either "deviceId" "seq";
      rules = is_int ∷ minimum (whole 0) ∷ [];
    }
    ∷ record { name = "capturedAt"; condition = if_given; rules = is_date_string ∷ [] }
    ∷ record { name = "observedAt"; condition = if_given; rules = is_date_string ∷ [] }
    ∷ record { name = "accuracy"; condition = if_given; rules = is_number ∷ minimum (whole 0) ∷ [] }
    ∷ []

-- class-validator: whether a property's value, none for undefined, satisfies a decorator
abbrev pub Validator : Type 0
Validator = Rule → Option Value → Bool

abbrev pub is_defined : Option Value → Bool
is_defined none = false
is_defined (some _) = true

abbrev pub is_given : Option Value → Bool
is_given none = false
is_given (some null) = false
is_given (some _) = true

unfoldable pub applies : Members → Condition → Option Value → Bool
applies body always value = true
applies body if_given value = is_given value
applies body (if_either a b) value =
    is_defined (property_of a body) || is_defined (property_of b body)

unfoldable pub satisfies_each : Validator → List Rule → Option Value → Bool
satisfies_each satisfies [] value = true
satisfies_each satisfies (rule ∷ rest) value =
    satisfies rule value && satisfies_each satisfies rest value

unfoldable pub passes : Validator → Members → Checked → Bool
unfolding applies satisfies_each
passes satisfies body checked =
    not (applies body checked.condition (property_of checked.name body))
    || satisfies_each satisfies checked.rules (property_of checked.name body)

-- the properties that are refused
unfoldable pub refused_properties : Validator → Members → List Checked → List String
unfolding passes
refused_properties satisfies body [] = []
refused_properties satisfies body (checked ∷ rest) =
    let later = refused_properties satisfies body rest in
    if passes satisfies body checked then later else checked.name ∷ later

-- The fields of the DTO, read from values of the types that its class names; none for another type.
abbrev pub text_of : Option Value → Option String
text_of (some (text s)) = some s
text_of _ = none

abbrev pub number_of : Option Value → Option Number
number_of (some (number (finite n))) = some n
number_of _ = none

-- a natural number, of the units of a double
unfoldable pub natural_of : Option Value → Option ℕ
natural_of (some (number (finite (pos n)))) =
    if eqb (n % 2 ^ 1074) 0 then some (n / 2 ^ 1074) else none
natural_of _ = none

-- a field that may be missing; null and undefined are one to the program, which tests by `??`
abbrev pub optional {ℓ} :
    {A : Type ℓ} → (Option Value → Option A) → Option Value → Option (Option A)
optional read none = some none
optional read (some null) = some none
optional read value = elim (read value) [ none ↦ none | some a ↦ some (some a) ]

infixl 5 ◌>>=◌
abbrev pub ◌>>=◌ {ℓ ℓ'} : {A : Type ℓ} {B : Type ℓ'} → Option A → (A → Option B) → Option B
none >>= k = none
some a >>= k = k a

-- a date, by the number that its text has among the dates
abbrev pub date_of : (String → ℕ) → Option Value → Option ℕ
date_of date_number value = do s ← text_of value; some (date_number s)

-- the DTO of a body whose properties have the types of its class
unfoldable pub dto_of : (String → ℕ) → Members → Option ReportLocationDto
unfolding natural_of
dto_of date_number body = do
  user_id ← text_of (property_of "userId" body)
  lat ← number_of (property_of "lat" body)
  lng ← number_of (property_of "lng" body)
  device_id ← optional text_of (property_of "deviceId" body)
  seq ← optional natural_of (property_of "seq" body)
  captured_at ← optional (date_of date_number) (property_of "capturedAt" body)
  observed_at ← optional (date_of date_number) (property_of "observedAt" body)
  accuracy ← optional number_of (property_of "accuracy" body)
  some (record {
    user_id = user_id;
    lat = lat;
    lng = lng;
    device_id = device_id;
    seq = seq;
    captured_at = captured_at;
    observed_at = observed_at;
    accuracy = accuracy;
  })
