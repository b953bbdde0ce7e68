-- ===== src/Harness/Load/Ordered.antt =====
-- The percentiles of src/scripts/measure-presence.mjs.
use geofence_location.Prelude.{
  ℕ, zero, suc, ◌-◌, ◌≤◌, ◌<◌, ◌≡◌, refl, List, [], ◌∷◌, All, length, sort, length-sort,
  IsNondecreasing, sort-IsNondecreasing, some, arith,
}
use geofence_location.Harness.Load.{Doubles, item_at, percentile, Stats, stats}

-- What is used of the doubles: a larger percentage gives no smaller share, at most the whole, and
-- rounding keeps the order.
pub record IsDoubles (d : Doubles) : Type 0 where
  pub share_mono : (p q n : ℕ) → p ≤ q → d.ceil_share p n ≤ d.ceil_share q n
  pub share_bound : (p n : ℕ) → p ≤ 100 → d.ceil_share p n ≤ n
  pub tenths_mono : (a b : ℕ) → a ≤ b → d.tenths a ≤ d.tenths b

item_at-first :
    (x : ℕ) (xs : List ℕ) (j : ℕ) → All (λ y. x ≤ y) xs → j < length xs → x ≤ item_at j xs
item_at-first x [] j h lt = absurd (omega arith)
item_at-first x (y ∷ ys) zero h lt = h.0
item_at-first x (y ∷ ys) (suc j) h lt = item_at-first x ys j h.1 (omega arith)

item_at_mono :
    (xs : List ℕ) (i j : ℕ)
    → IsNondecreasing xs
    → i ≤ j
    → j < length xs
    → item_at i xs ≤ item_at j xs
item_at_mono [] i j h le lt = absurd (omega arith)
item_at_mono (x ∷ xs) zero zero h le lt = omega arith
item_at_mono (x ∷ xs) zero (suc j) h le lt = item_at-first x xs j h.0 (omega arith)
item_at_mono (x ∷ xs) (suc i) zero h le lt = absurd (omega arith)
item_at_mono (x ∷ xs) (suc i) (suc j) h le lt = item_at_mono xs i j h.1 (omega arith) (omega arith)

pub record IsOrderedStats (s : Stats) : Type 0 where
  pub half : s.p50 ≤ s.p95
  pub most : s.p95 ≤ s.p99
  pub all : s.p99 ≤ s.max

module _ (d : Doubles) (law : IsDoubles d) where
  percentile_mono :
      (x : ℕ) (xs : List ℕ) (p q : ℕ)
      → IsNondecreasing (x ∷ xs)
      → p ≤ q
      → q ≤ 100
      → percentile d (x ∷ xs) p ≤ percentile d (x ∷ xs) q
  unfolding percentile
  percentile_mono x xs p q h le most =
      item_at_mono (x ∷ xs) (d.ceil_share p (length (x ∷ xs)) - 1)
        (d.ceil_share q (length (x ∷ xs)) - 1) h
        (omega (arith, law.share_mono p q (length (x ∷ xs)) le))
        (omega (arith, law.share_bound q (length (x ∷ xs)) most))

  percentile-le-last :
      (x : ℕ) (xs : List ℕ) (p : ℕ)
      → IsNondecreasing (x ∷ xs)
      → p ≤ 100
      → percentile d (x ∷ xs) p ≤ item_at (length (x ∷ xs) - 1) (x ∷ xs)
  unfolding percentile
  percentile-le-last x xs p h most =
      item_at_mono (x ∷ xs) (d.ceil_share p (length (x ∷ xs)) - 1) (length (x ∷ xs) - 1) h
        (omega (arith, law.share_bound p (length (x ∷ xs)) most)) (omega arith)

  percentiles_ordered :
      (sorted : List ℕ)
      → IsNondecreasing sorted
      → 0 < length sorted
      → IsOrderedStats (record {
        count = length sorted;
        p50 = d.tenths (percentile d sorted 50);
        p95 = d.tenths (percentile d sorted 95);
        p99 = d.tenths (percentile d sorted 99);
        max = d.tenths (item_at (length sorted - 1) sorted);
      })
  percentiles_ordered [] h lt = absurd (omega arith)
  percentiles_ordered (x ∷ xs) h lt = record {
    half = law.tenths_mono _ _ (percentile_mono x xs 50 95 h (omega arith) (omega arith));
    most = law.tenths_mono _ _ (percentile_mono x xs 95 99 h (omega arith) (omega arith));
    all = law.tenths_mono _ _ (percentile-le-last x xs 99 h (omega arith));
  }

  -- the summary of a list is there unless the list is empty, counts it, and is ordered
  pub stats-ordered :
      (v : ℕ) (vs : List ℕ)
      → (s : Stats) × ((stats d (v ∷ vs) ≡ some s)
          × ((s.count ≡ length (v ∷ vs)) × IsOrderedStats s))
  unfolding stats
  stats-ordered v vs =
      let count = length-sort (v ∷ vs) in
      (
        _,
        (
          refl,
          (
            count,
            percentiles_ordered (sort (v ∷ vs)) (sort-IsNondecreasing (v ∷ vs))
                (omega (arith, count)),
          ),
        ),
      )
