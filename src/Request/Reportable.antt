-- ===== src/Request/Reportable.antt =====
-- The DTO of a body of POST /locations that src/locations/dto/report-location.dto.ts lets through.
use geofence_location.Prelude.{
  ℕ, ◌≡◌, ◌⊎◌, inl, inr, refl, ap, String, false, true, Option, none, some, List, [], Number, whole,
  ltb_ℤ,
}
use geofence_location.Areas.GeoJson.{Members, property_of}
use geofence_location.Locations.{ReportLocationDto}
use geofence_location.Request.{
  Rule, always, opposite, location_rules, Validator, applies, satisfies_each, passes,
  refused_properties, text_of, number_of, natural_of, optional, date_of, dto_of,
}
use geofence_location.Request.Typed.{
  IsDocumented, IsName, refused_properties-passes, is_name, is_within, dates, accuracies,
  device_cases,
}

-- What the DTO of an accepted body promises: names, a position on the globe, a device and its seq
-- both or neither, an accuracy that is not negative.
pub record IsReportable (size : String → ℕ) (dto : ReportLocationDto) : Type 0 where
  pub user : IsName size 64 dto.user_id
  pub latitude : (ltb_ℤ dto.lat (opposite (whole 90)) ≡ false) × (ltb_ℤ (whole 90) dto.lat ≡ false)
  pub longitude :
      (ltb_ℤ dto.lng (opposite (whole 180)) ≡ false) × (ltb_ℤ (whole 180) dto.lng ≡ false)
  pub device :
      ((dto.device_id ≡ none) × (dto.seq ≡ none))
      ⊎ ((d : String) × (n : ℕ) × (dto.device_id ≡ some d) × (dto.seq ≡ some n) × IsName size 64 d)
  pub accuracy :
      (dto.accuracy ≡ none) ⊎ ((a : Number) × (dto.accuracy ≡ some a) × (ltb_ℤ a (whole 0) ≡ false))

pub always-satisfied :
    (satisfies : Validator) (body : Members) (name : String) (rules : List Rule)
    → passes satisfies body (record { name = name; condition = always; rules = rules }) ≡ true
    → satisfies_each satisfies rules (property_of name body) ≡ true
unfolding passes applies
always-satisfied satisfies body name rules e = e

dto_of-eq :
    (date_number : String → ℕ) (body : Members) (dto : ReportLocationDto)
    → text_of (property_of "userId" body) ≡ some dto.user_id
    → number_of (property_of "lat" body) ≡ some dto.lat
    → number_of (property_of "lng" body) ≡ some dto.lng
    → optional text_of (property_of "deviceId" body) ≡ some dto.device_id
    → optional natural_of (property_of "seq" body) ≡ some dto.seq
    → optional (date_of date_number) (property_of "capturedAt" body) ≡ some dto.captured_at
    → optional (date_of date_number) (property_of "observedAt" body) ≡ some dto.observed_at
    → optional number_of (property_of "accuracy" body) ≡ some dto.accuracy
    → dto_of date_number body ≡ some dto
unfolding dto_of
dto_of-eq date_number body dto user lat lng device seq captured observed accuracy =
    rw (user, lat, lng, device, seq, captured, observed, accuracy) refl

module _ (satisfies : Validator) (size : String → ℕ) (doc : IsDocumented satisfies size) where
  -- A body that is let through has the types that its class names, and the DTO keeps its promises.
  pub dto_of-IsReportable :
      (date_number : String → ℕ) (body : Members)
      → refused_properties satisfies body location_rules ≡ []
      → (dto : ReportLocationDto) × (dto_of date_number body ≡ some dto) × IsReportable size dto
  dto_of-IsReportable date_number body e =
      let (user, e1) = refused_properties-passes satisfies body _ _ e in
      let (lat, e2) = refused_properties-passes satisfies body _ _ e1 in
      let (lng, e3) = refused_properties-passes satisfies body _ _ e2 in
      let (device, e4) = refused_properties-passes satisfies body _ _ e3 in
      let (seq, e5) = refused_properties-passes satisfies body _ _ e4 in
      let (captured, e6) = refused_properties-passes satisfies body _ _ e5 in
      let (observed, e7) = refused_properties-passes satisfies body _ _ e6 in
      let (accuracy, _) = refused_properties-passes satisfies body _ _ e7 in
      let (u, u_there, u_name) =
        is_name satisfies size doc 64 _ (always-satisfied satisfies body _ _ user) in
      let (y, y_there, y_low, y_high) =
        is_within satisfies size doc 90 _ (always-satisfied satisfies body _ _ lat) in
      let (x, x_there, x_low, x_high) =
        is_within satisfies size doc 180 _ (always-satisfied satisfies body _ _ lng) in
      let (c, c_there) = dates satisfies size doc date_number body "capturedAt" captured in
      let (o, o_there) = dates satisfies size doc date_number body "observedAt" observed in
      let (a, a_there, a_bound) = accuracies satisfies size doc body accuracy in
      let made : (device_id : Option String) (n : Option ℕ) → ReportLocationDto = λ device_id n.
        record {
          user_id = u;
          lat = y;
          lng = x;
          device_id = device_id;
          seq = n;
          captured_at = c;
          observed_at = o;
          accuracy = a;
        } in
      let whole_dto : (device_id : Option String) (n : Option ℕ)
          → optional text_of (property_of "deviceId" body) ≡ some device_id
          → optional natural_of (property_of "seq" body) ≡ some n
          → dto_of date_number body ≡ some (made device_id n) =
        λ device_id n ed en.
          dto_of-eq date_number body (made device_id n) (ap text_of u_there) (ap number_of y_there)
            (ap number_of x_there) ed en c_there o_there a_there in
      elim (device_cases satisfies size doc body device seq) [
        | inl (no_device, no_seq) ↦ (
          made none none,
          whole_dto none none no_device no_seq,
          record {
            user = u_name;
            latitude = (y_low, y_high);
            longitude = (x_low, x_high);
            device = inl (refl, refl);
            accuracy = a_bound;
          },
        )
        | inr (d, n, d_name, d_there, n_there) ↦ (
          made (some d) (some n),
          whole_dto (some d) (some n) d_there n_there,
          record {
            user = u_name;
            latitude = (y_low, y_high);
            longitude = (x_low, x_high);
            device = inr (d, n, refl, refl, d_name);
            accuracy = a_bound;
          },
        )
      ]
