-- ===== src/Locations.antt =====
-- src/locations/locations.service.ts and src/locations/dto: the transition from one position
-- report to presence rows and entry logs. The proofs are in the modules below.
pub mod Transition
pub mod Report
pub mod Hint
pub mod Coherence
pub mod Evaluation
pub mod Failing
pub mod Fresh
pub mod Keeping
use geofence_location.Prelude.{
  ℕ, String, Bool, true, false, not, Option, none, some, List, [], ◌∷◌, ◌&&◌, ◌||◌, Number, ltb_ℤ,
  whole, eqb, length, any, contains, if◌then◌else◌,
}

pub record ReportLocationDto : Type 0 where
  pub user_id : String
  pub lat : Number
  pub lng : Number
  pub device_id : Option String
  pub seq : Option ℕ
  pub captured_at : Option ℕ
  pub observed_at : Option ℕ
  pub accuracy : Option Number

pub record LocationReportResponse : Type 0 where
  pub entered_area_ids : List ℕ
  pub duplicate : Bool

abbrev pub max_accuracy_meters : ℕ
max_accuracy_meters = 100

-- `accuracy !== undefined && accuracy > MAX_ACCURACY_METERS`
unfoldable pub is_too_uncertain : Option Number → Bool
is_too_uncertain none = false
is_too_uncertain (some accuracy) = ltb_ℤ (whole max_accuracy_meters) accuracy

-- `a ?? b`
abbrev pub or_else {ℓ} : {A : Type ℓ} → Option A → Option A → Option A
or_else none b = b
or_else (some a) b = some a

-- LocationsService.differs
unfoldable pub differs : List ℕ → List ℕ → Bool
differs current previous =
    if not (eqb (length current) (length previous))
    then true
    else any (λ a. not (contains previous a)) current
