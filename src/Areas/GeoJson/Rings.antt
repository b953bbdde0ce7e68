-- ===== src/Areas/GeoJson/Rings.antt =====
-- src/areas/dto/geojson-polygon.validation.ts, one round of its outer loop: rings.
use geofence_location.Prelude.{
  ℕ, ◌≤◌, ◌≡◌, refl, sym, ◌∙◌, ap, true, false, none, some, List, [], ◌∷◌, ◌++◌, Number, pos,
  negsuc, ltb, eqb_iff, All, length, arith,
}
use geofence_location.Areas.{Position}
use geofence_location.Areas.GeoJson.{
  Values, cons, eqb_ℤ, first_of, last_of, pair_of, is_closed, count, ring_failure,
}
use geofence_location.Areas.GeoJson.Positions.{
  encode, encode_ring, IsInRange, positions_failure-eq-none, positions_failure-encode_ring,
  count-encode_ring,
}

-- At least four positions, each in range, of which the last is the first again.
pub record IsRing (ring : List Position) : Type 0 where
  pub long : 4 ≤ length ring
  pub in_range : All IsInRange ring
  pub closed : (p : Position) × (middle : List Position) × (ring ≡ p ∷ (middle ++ p ∷ []))

eqb_ℤ-eq : (a b : Number) → eqb_ℤ a b ≡ true → a ≡ b
eqb_ℤ-eq (pos a) (pos b) h = ap pos ((eqb_iff a b).0 h)
eqb_ℤ-eq (pos a) (negsuc b) h = cc
eqb_ℤ-eq (negsuc a) (pos b) h = cc
eqb_ℤ-eq (negsuc a) (negsuc b) h = ap negsuc ((eqb_iff a b).0 h)

eqb_ℤ-refl : (a : Number) → eqb_ℤ a a ≡ true
eqb_ℤ-refl (pos a) = (eqb_iff a a).1 refl
eqb_ℤ-refl (negsuc a) = (eqb_iff a a).1 refl

-- the last of a ring, and what stands before it
split_last :
    (p : Position) (ring : List Position)
    → (middle : List Position) × (q : Position) × (p ∷ ring ≡ middle ++ q ∷ [])
      × (last_of (encode_ring (p ∷ ring)) ≡ some (encode q))
unfolding last_of encode_ring
split_last p [] = ([], p, refl, refl)
split_last p (r ∷ ring) =
    let (middle, q, e, last) = split_last r ring in (p ∷ middle, q, ap (λ l. p ∷ l) e, last)

last_of-encode_ring :
    (middle : List Position) (q : Position)
    → last_of (encode_ring (middle ++ q ∷ [])) ≡ some (encode q)
unfolding last_of encode_ring
last_of-encode_ring [] q = refl
last_of-encode_ring (p ∷ []) q = refl
last_of-encode_ring (p ∷ r ∷ middle) q = last_of-encode_ring (r ∷ middle) q

same-of_closed :
    (p q : Position) (vs : Values)
    → last_of (cons (encode p) vs) ≡ some (encode q)
    → is_closed (cons (encode p) vs) ≡ true
    → p ≡ q
unfolding is_closed first_of pair_of
same-of_closed p q vs last h =
    let lng : eqb_ℤ p.lng q.lng ≡ true = ground (arith, last) in
    let lat : eqb_ℤ p.lat q.lat ≡ true = ground (arith, last) in
    cc (eqb_ℤ-eq p.lng q.lng lng, eqb_ℤ-eq p.lat q.lat lat)

is_closed-eq-true :
    (p r : Position) (ring : List Position)
    → is_closed (encode_ring (p ∷ r ∷ ring)) ≡ true
    → (middle : List Position) × (p ∷ r ∷ ring ≡ p ∷ (middle ++ p ∷ []))
unfolding encode_ring last_of
is_closed-eq-true p r ring h =
    let (middle, q, e, last) = split_last r ring in
    let same = same-of_closed p q (encode_ring (r ∷ ring)) last h in
    (middle, ap (λ l. p ∷ l) (e ∙ ap (λ x. middle ++ x ∷ []) (sym same)))

is_closed-encode_ring :
    (p : Position) (middle : List Position)
    → is_closed (encode_ring (p ∷ (middle ++ p ∷ []))) ≡ true
unfolding is_closed pair_of first_of encode_ring
is_closed-encode_ring p middle =
    let last : last_of (cons (encode p) (encode_ring (middle ++ p ∷ []))) ≡ some (encode p) =
      last_of-encode_ring (p ∷ middle) p in
    ground (arith, last, eqb_ℤ-refl p.lng, eqb_ℤ-refl p.lat)

pub ring_failure-eq-none :
    (index : ℕ) (vs : Values)
    → ring_failure index vs ≡ none
    → (ring : List Position) × (vs ≡ encode_ring ring) × IsRing ring
unfolding ring_failure
ring_failure-eq-none index vs h =
    let enough : ltb (count vs) 4 ≡ false = ground arith in
    let (ring, same, inside) = positions_failure-eq-none index 0 vs (ground arith) in
    let long : 4 ≤ length ring = ground (arith, enough, count-encode_ring ring) in
    (
      ring,
      same,
      record { long = long; in_range = inside; closed = closed ring long (ground arith) },
    )
  where
    closed :
        (ring : List Position)
        → 4 ≤ length ring
        → is_closed (encode_ring ring) ≡ true
        → (p : Position) × (middle : List Position) × (ring ≡ p ∷ (middle ++ p ∷ []))
    closed [] long e = absurd (omega arith)
    closed (p ∷ []) long e = absurd (omega arith)
    closed (p ∷ r ∷ ring) long e =
        let (middle, ends) = is_closed-eq-true p r ring e in (p, middle, ends)

pub ring_failure-encode_ring :
    (index : ℕ) (ring : List Position) → IsRing ring → ring_failure index (encode_ring ring) ≡ none
unfolding ring_failure
ring_failure-encode_ring index ring h =
    let (p, middle, e) = h.closed in
    let closed : is_closed (encode_ring ring) ≡ true = rw e (is_closed-encode_ring p middle) in
    ground (
      arith,
      h.long,
      count-encode_ring ring,
      positions_failure-encode_ring index 0 ring h.in_range,
      closed,
    )
