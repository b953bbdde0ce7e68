-- ===== src/Request/Typed.antt =====
-- What a body of POST /locations that src/locations/dto/report-location.dto.ts lets through
-- amounts to.
use Prim.Native.Nat.{◌/◌}
use geofence_location.Prelude.{
  ℕ, suc, ◌%◌, ◌^◌, ◌≤◌, ◌≡◌, ◌≢◌, ◌⊎◌, inl, inr, refl, ap, String, true, false, Option, none, some,
  List, [], ◌∷◌, Number, pos, negsuc, whole, ltb_ℤ, eqb, if◌then◌else◌, Bool-cases, arith,
}
use geofence_location.Areas.GeoJson.{
  Value, null, boolean, number, text, array, object, finite, not_finite, Members, property_of,
}
use geofence_location.Request.{
  Rule, is_string, is_not_empty, is_number, is_int, is_date_string, max_length, minimum, maximum,
  if_given, if_either, Checked, opposite, name_rules, within, Validator, is_defined, is_given,
  applies, satisfies_each, passes, refused_properties, text_of, number_of, natural_of, optional,
  date_of,
}

-- how many units of 2^-1074 a double is away from zero
abbrev pub units : Number → ℕ
units (pos n) = n
units (negsuc n) = suc n

-- class-validator's documentation: `@IsNumber` takes no infinity, `@IsInt` only integers.
pub record IsDocumented (satisfies : Validator) (size : String → ℕ) : Type 0 where
  pub is_string_only :
      (value : Option Value)
      → satisfies is_string value ≡ true
      → (s : String) × (value ≡ some (text s))
  pub is_date_only :
      (value : Option Value)
      → satisfies is_date_string value ≡ true
      → (s : String) × (value ≡ some (text s))
  pub is_number_only :
      (value : Option Value)
      → satisfies is_number value ≡ true
      → (n : Number) × (value ≡ some (number (finite n)))
  pub is_int_only :
      (value : Option Value)
      → satisfies is_int value ≡ true
      → (n : Number) × (value ≡ some (number (finite n))) × (units n % 2 ^ 1074 ≡ 0)
  pub not_empty : (s : String) → satisfies is_not_empty (some (text s)) ≡ true → s ≢ ""
  pub not_longer :
      (k : ℕ) (s : String) → satisfies (max_length k) (some (text s)) ≡ true → size s ≤ k
  pub not_below :
      (a n : Number) → satisfies (minimum a) (some (number (finite n))) ≡ true → ltb_ℤ n a ≡ false
  pub not_above :
      (a n : Number) → satisfies (maximum a) (some (number (finite n))) ≡ true → ltb_ℤ a n ≡ false

-- A text that may name a user, a device or an area, by the bound on its size.
pub record IsName (size : String → ℕ) (bound : ℕ) (s : String) : Type 0 where
  pub not_empty : s ≢ ""
  pub size_bound : size s ≤ bound

pub refused_properties-passes :
    (satisfies : Validator) (body : Members) (checked : Checked) (rest : List Checked)
    → refused_properties satisfies body (checked ∷ rest) ≡ []
    → (passes satisfies body checked ≡ true) × (refused_properties satisfies body rest ≡ [])
unfolding refused_properties
refused_properties-passes satisfies body checked rest e =
    elim (Bool-cases (passes satisfies body checked)) [
      | inl passed ↦ (passed, ground (arith, e, passed))
      | inr refused ↦ absurd (ground (arith, e, refused))
    ]

-- a value that is not there is read as none
optional-absent :
    {A : Type 0} (read : Option Value → Option A) (value : Option Value)
    → is_given value ≡ false
    → optional read value ≡ some none
optional-absent read none e = refl
optional-absent read (some null) e = refl
optional-absent read (some (boolean b)) e = cc
optional-absent read (some (number n)) e = cc
optional-absent read (some (text s)) e = cc
optional-absent read (some (array vs)) e = cc
optional-absent read (some (object ms)) e = cc

defined-given : (value : Option Value) → is_defined value ≡ false → is_given value ≡ false
defined-given none e = refl
defined-given (some value) e = cc

whole_units :
    (rest n : ℕ)
    → rest ≡ 0
    → optional (λ _. if eqb rest 0 then some n else none) (some (number not_finite)) ≡ some (some n)
whole_units rest n e = ground arith

if_given-cases :
    (satisfies : Validator) (body : Members) (name : String) (rules : List Rule)
    → passes satisfies body (record { name = name; condition = if_given; rules = rules }) ≡ true
    → (is_given (property_of name body) ≡ false)
      ⊎ (satisfies_each satisfies rules (property_of name body) ≡ true)
unfolding passes applies
if_given-cases satisfies body name rules e = elim (Bool-cases (is_given (property_of name body))) [
  | inl given ↦ inr (ground arith)
  | inr missing ↦ inl missing
]

module _ (satisfies : Validator) (size : String → ℕ) (doc : IsDocumented satisfies size) where
  pub is_name :
      (bound : ℕ) (value : Option Value)
      → satisfies_each satisfies (name_rules bound) value ≡ true
      → (s : String) × (value ≡ some (text s)) × IsName size bound s
  unfolding satisfies_each
  is_name bound value e =
      let (s, there) = doc.is_string_only value (ground arith) in
      (
        s,
        there,
        record {
          not_empty = doc.not_empty s (ground (arith, e, there));
          size_bound = doc.not_longer bound s (ground (arith, e, there));
        },
      )

  pub is_within :
      (bound : ℕ) (value : Option Value)
      → satisfies_each satisfies (within bound) value ≡ true
      → (n : Number) × (value ≡ some (number (finite n)))
        × (ltb_ℤ n (opposite (whole bound)) ≡ false)
        × (ltb_ℤ (whole bound) n ≡ false)
  unfolding satisfies_each
  is_within bound value e =
      let (n, there) = doc.is_number_only value (ground arith) in
      (
        n,
        there,
        doc.not_below (opposite (whole bound)) n (ground (arith, e, there)),
        doc.not_above (whole bound) n (ground (arith, e, there)),
      )

  is_natural :
      (value : Option Value)
      → satisfies_each satisfies (is_int ∷ minimum (whole 0) ∷ []) value ≡ true
      → (n : ℕ) × (optional natural_of value ≡ some (some n))
  unfolding satisfies_each natural_of whole
  is_natural value e =
      let (n, there, integral) = doc.is_int_only value (ground arith) in
      let above = doc.not_below (whole 0) n (ground (arith, e, there)) in
      natural n there integral above
    where
      natural :
          (n : Number)
          → value ≡ some (number (finite n))
          → units n % 2 ^ 1074 ≡ 0
          → ltb_ℤ n (pos 0) ≡ false
          → (k : ℕ) × (optional natural_of value ≡ some (some k))
      natural (pos n) there integral above =
          (n / 2 ^ 1074, rw there (whole_units (n % 2 ^ 1074) (n / 2 ^ 1074) integral))
      natural (negsuc n) there integral above = cc

  pub dates :
      (date_number : String → ℕ) (body : Members) (name : String)
      → passes satisfies body
          (record { name = name; condition = if_given; rules = is_date_string ∷ [] })
        ≡ true
      → (o : Option ℕ) × (optional (date_of date_number) (property_of name body) ≡ some o)
  unfolding satisfies_each
  dates date_number body name e =
      elim (if_given-cases satisfies body name (is_date_string ∷ []) e) [
        | inl missing ↦
            (none, optional-absent (date_of date_number) (property_of name body) missing)
        | inr checked ↦
            let (s, there) = doc.is_date_only (property_of name body) (ground arith) in
            (some (date_number s), ap (optional (date_of date_number)) there)
      ]

  pub accuracies :
      (body : Members)
      → passes satisfies body (record {
        name = "accuracy";
        condition = if_given;
        rules = is_number ∷ minimum (whole 0) ∷ [];
      })
        ≡ true
      → (o : Option Number) × (optional number_of (property_of "accuracy" body) ≡ some o)
        × ((o ≡ none) ⊎ ((a : Number) × (o ≡ some a) × (ltb_ℤ a (whole 0) ≡ false)))
  unfolding satisfies_each
  accuracies body e =
      elim (if_given-cases satisfies body "accuracy" (is_number ∷ minimum (whole 0) ∷ []) e) [
        | inl missing ↦
            (none, optional-absent number_of (property_of "accuracy" body) missing, inl refl)
        | inr checked ↦
            let (a, there) = doc.is_number_only (property_of "accuracy" body) (ground arith) in
            (
              some a,
              ap (optional number_of) there,
              inr (a, refl, doc.not_below (whole 0) a (ground (arith, checked, there))),
            )
      ]

  pub device_cases :
      (body : Members)
      → passes satisfies body (record {
        name = "deviceId";
        condition = if_either "deviceId" "seq";
        rules = name_rules 64;
      })
        ≡ true
      → passes satisfies body (record {
        name = "seq";
        condition = if_either "deviceId" "seq";
        rules = is_int ∷ minimum (whole 0) ∷ [];
      })
        ≡ true
      → ((optional text_of (property_of "deviceId" body) ≡ some none)
          × (optional natural_of (property_of "seq" body) ≡ some none))
        ⊎ ((d : String) × (n : ℕ) × IsName size 64 d
            × (optional text_of (property_of "deviceId" body) ≡ some (some d))
            × (optional natural_of (property_of "seq" body) ≡ some (some n)))
  unfolding passes applies
  device_cases body device seq =
      elim (Bool-cases (applies body (if_either "deviceId" "seq") none)) [
        | inl asked ↦
            let (d, there, name) = is_name 64 (property_of "deviceId" body) (ground arith) in
            let (n, natural) = is_natural (property_of "seq" body) (ground arith) in
            inr (d, n, name, ap (optional text_of) there, natural)
        | inr not_asked ↦ inl (
          optional-absent text_of (property_of "deviceId" body)
              (defined-given (property_of "deviceId" body) (ground arith)),
          optional-absent natural_of (property_of "seq" body)
              (defined-given (property_of "seq" body) (ground arith)),
        )
      ]
