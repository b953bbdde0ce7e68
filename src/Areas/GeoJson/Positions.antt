-- ===== src/Areas/GeoJson/Positions.antt =====
-- src/areas/dto/geojson-polygon.validation.ts, its inner loop: positions.
use geofence_location.Prelude.{
  ℕ, suc, ◌-◌, ◌*◌, ◌^◌, ◌<◌, ◌≡◌, ◌↔◌, refl, ap, false, none, some, List, [], ◌∷◌, Number, pos,
  negsuc, ltb_ℤ, whole, All, length, arith, Option-cases, inl, inr,
}
use geofence_location.Areas.{Position}
use geofence_location.Areas.GeoJson.{
  finite, not_finite, Value, null, boolean, number, text, array, object, Values, nil, cons,
  absolute, range_failure, finite_number, pair_failure, position_failure, positions_failure, count,
}

-- the GeoJSON of a position and of a ring
abbrev pub encode : Position → Value
encode p = array (cons (number (finite p.lng)) (cons (number (finite p.lat)) nil))

unfoldable pub encode_ring : List Position → Values
encode_ring [] = nil
encode_ring (p ∷ ring) = cons (encode p) (encode_ring ring)

unfoldable pub minus_whole : ℕ → Number
minus_whole n = negsuc (n * 2 ^ 1074 - 1)

abbrev pub IsWithin : ℕ → Number → Type 0
IsWithin n x = (ltb_ℤ (whole n) x ≡ false) × (ltb_ℤ x (minus_whole n) ≡ false)

abbrev pub IsInRange : Position → Type 0
IsInRange p = IsWithin 180 p.lng × IsWithin 90 p.lat

absolute-within :
    (k : ℕ) (x : Number)
    → 0 < k
    → (ltb_ℤ (pos k) (absolute x) ≡ false)
      ↔ ((ltb_ℤ (pos k) x ≡ false) × (ltb_ℤ x (negsuc (k - 1)) ≡ false))
absolute-within k (pos n) positive = (λ h. (h, refl), λ h. h.0)
absolute-within k (negsuc n) positive = (λ h. (refl, ground arith), λ h. ground arith)

lng-IsWithin : (x : Number) → (ltb_ℤ (whole 180) (absolute x) ≡ false) ↔ IsWithin 180 x
unfolding whole minus_whole
lng-IsWithin x = absolute-within (180 * 2 ^ 1074) x (omega arith)

lat-IsWithin : (x : Number) → (ltb_ℤ (whole 90) (absolute x) ≡ false) ↔ IsWithin 90 x
unfolding whole minus_whole
lat-IsWithin x = absolute-within (90 * 2 ^ 1074) x (omega arith)

finite_number-eq : (v : Value) (x : Number) → finite_number v ≡ some x → v ≡ number (finite x)
finite_number-eq null x e = cc
finite_number-eq (boolean b) x e = cc
finite_number-eq (number (finite y)) x e = ground arith
finite_number-eq (number not_finite) x e = cc
finite_number-eq (text s) x e = cc
finite_number-eq (array vs) x e = cc
finite_number-eq (object ms) x e = cc

module _ (i j : ℕ) where
  range_failure-eq-none : (p : Position) → (range_failure i j p.lng p.lat ≡ none) ↔ IsInRange p
  unfolding range_failure
  range_failure-eq-none p = (
    λ h. ((lng-IsWithin p.lng).0 (ground arith), (lat-IsWithin p.lat).0 (ground arith)),
    λ h. ground (arith, (lng-IsWithin p.lng).1 h.0, (lat-IsWithin p.lat).1 h.1),
  )

  pair_failure-eq-none :
      (x y : Value)
      → pair_failure i j x y ≡ none
      → (p : Position) × (array (cons x (cons y nil)) ≡ encode p) × IsInRange p
  unfolding pair_failure
  pair_failure-eq-none x y h = elim (Option-cases (finite_number x)) [
    | inl no_lng ↦ ground arith
    | inr (lng, ex) ↦ elim (Option-cases (finite_number y)) [
      | inl no_lat ↦ ground arith
      | inr (lat, ey) ↦
          let p : Position = record { lng = lng; lat = lat } in
          let inside : range_failure i j lng lat ≡ none = ground arith in
          (
            p,
            cc (finite_number-eq x lng ex, finite_number-eq y lat ey),
            (range_failure-eq-none p).0 inside,
          )
    ]
  ]

  pub position_failure-eq-none :
      (v : Value) → position_failure i j v ≡ none → (p : Position) × (v ≡ encode p) × IsInRange p
  unfolding position_failure
  position_failure-eq-none null h = ground arith
  position_failure-eq-none (boolean b) h = ground arith
  position_failure-eq-none (number x) h = ground arith
  position_failure-eq-none (text s) h = ground arith
  position_failure-eq-none (object ms) h = ground arith
  position_failure-eq-none (array nil) h = ground arith
  position_failure-eq-none (array (cons x nil)) h = ground arith
  position_failure-eq-none (array (cons x (cons y nil))) h = pair_failure-eq-none x y h
  position_failure-eq-none (array (cons x (cons y (cons z vs)))) h = ground arith

  pub position_failure-encode :
      (p : Position) → IsInRange p → position_failure i j (encode p) ≡ none
  unfolding position_failure pair_failure
  position_failure-encode p h = (range_failure-eq-none p).1 h

pub positions_failure-eq-none :
    (i j : ℕ) (vs : Values)
    → positions_failure i j vs ≡ none
    → (ring : List Position) × (vs ≡ encode_ring ring) × All IsInRange ring
unfolding positions_failure encode_ring
positions_failure-eq-none i j nil h = ([], refl, tt)
positions_failure-eq-none i j (cons v vs) h = elim (Option-cases (position_failure i j v)) [
  | inr (failure, e) ↦ ground arith
  | inl e ↦
      let (p, same, inside) = position_failure-eq-none i j v e in
      let (ring, rest, all) = positions_failure-eq-none i (suc j) vs (ground arith) in
      (p ∷ ring, cc (same, rest), (inside, all))
]

pub positions_failure-encode_ring :
    (i j : ℕ) (ring : List Position)
    → All IsInRange ring
    → positions_failure i j (encode_ring ring) ≡ none
unfolding positions_failure encode_ring
positions_failure-encode_ring i j [] h = refl
positions_failure-encode_ring i j (p ∷ ring) h =
    ground
      (arith, position_failure-encode i j p h.0, positions_failure-encode_ring i (suc j) ring h.1)

pub count-encode_ring : (ring : List Position) → count (encode_ring ring) ≡ length ring
unfolding count encode_ring
count-encode_ring [] = refl
count-encode_ring (p ∷ ring) = ap suc (count-encode_ring ring)
