-- ===== src/Locations/Hint.antt =====
-- `differs`: when the hint lets a report through without a transaction.
use geofence_location.Prelude.{
  ℕ, ◌≡◌, ◌↔◌, false, not, List, arith, length, any, contains, any-eq-false, any-eq-false_of_all,
  length-le_of_Includes, IsDistinct, Includes, Includes-of_length-eq,
}
use geofence_location.Locations.{differs}

abbrev pub SameAreas : List ℕ → List ℕ → Type 0
SameAreas xs ys = (b : ℕ) → contains xs b ≡ contains ys b

differs-eq-false :
    (current previous : List ℕ)
    → differs current previous ≡ false
    → (length current ≡ length previous) × (any (λ a. not (contains previous a)) current ≡ false)
unfolding differs
differs-eq-false current previous h = (ground arith, ground arith)

Includes-of_not_differs :
    (current previous : List ℕ) → differs current previous ≡ false → Includes previous current
Includes-of_not_differs current previous h b k = ground (
  arith,
  any-eq-false (λ a. not (contains previous a)) current b (differs-eq-false current previous h).1 k,
)

-- Where the covering areas are distinct, the fast path is taken only on a hint with the same areas.
pub SameAreas-of_not_differs :
    (current previous : List ℕ)
    → IsDistinct current
    → differs current previous ≡ false
    → SameAreas current previous
SameAreas-of_not_differs current previous d h b =
    let there = Includes-of_not_differs current previous h in
    let back =
      Includes-of_length-eq current previous d there (differs-eq-false current previous h).0 in
    ground (arith, there b, back b)

length-eq_of_SameAreas :
    (xs ys : List ℕ) → IsDistinct xs → IsDistinct ys → SameAreas xs ys → length xs ≡ length ys
length-eq_of_SameAreas xs ys dx dy h = omega (
  arith,
  length-le_of_Includes xs ys dx (λ b k. ground (arith, h b)),
  length-le_of_Includes ys xs dy (λ b k. ground (arith, h b)),
)

not_differs_of_SameAreas :
    (current previous : List ℕ)
    → IsDistinct current
    → IsDistinct previous
    → SameAreas current previous
    → differs current previous ≡ false
unfolding differs
not_differs_of_SameAreas current previous dc dp h = ground (
  arith,
  length-eq_of_SameAreas current previous dc dp h,
  any-eq-false_of_all (λ a. not (contains previous a)) current (λ b k. ground (arith, h b)),
)

-- For lists without repetition, no change is apparent exactly when both hold the same areas, in
-- whatever order.
pub differs-eq-false_iff :
    (current previous : List ℕ)
    → IsDistinct current
    → IsDistinct previous
    → (differs current previous ≡ false) ↔ SameAreas current previous
differs-eq-false_iff current previous dc dp =
    (SameAreas-of_not_differs current previous dc, not_differs_of_SameAreas current previous dc dp)
