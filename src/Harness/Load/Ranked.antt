-- ===== src/Harness/Load/Ranked.antt =====
-- The percentiles of src/scripts/measure-presence.mjs as ranks among the latencies.
use mathlib.Core.Option.{some_inj}
use geofence_location.Prelude.{
  ℕ, zero, suc, ◌+◌, ◌-◌, ◌≤◌, ◌<◌, ◌≡◌, refl, subst, Bool, some, List, [], ◌∷◌, All, length,
  filter, sort, length-filter-sort, length-sort, IsNondecreasing, sort-IsNondecreasing, ltb, leb,
  arith,
}
use geofence_location.Harness.Load.{Doubles, item_at, percentile, Stats, stats}
use geofence_location.Harness.Load.Ordered.{IsDoubles}

abbrev pub how_many : (ℕ → Bool) → List ℕ → ℕ
how_many test xs = length (filter test xs)

-- The value at the k-th place, from the smallest on: fewer than k are smaller, at least k not larger.
pub record IsRank (k v : ℕ) (xs : List ℕ) : Type 0 where
  pub smaller : how_many (λ x. ltb x v) xs < k
  pub not_larger : k ≤ how_many (λ x. leb x v) xs

-- the place of a percentage among n values
abbrev pub place : Doubles → ℕ → ℕ → ℕ
place d p n = (d.ceil_share p n - 1) + 1

-- Each figure of a summary is the rounded value at its place.
pub record IsRanked (d : Doubles) (xs : List ℕ) (s : Stats) : Type 0 where
  pub half : (v : ℕ) × (s.p50 ≡ d.tenths v) × IsRank (place d 50 (length xs)) v xs
  pub most : (v : ℕ) × (s.p95 ≡ d.tenths v) × IsRank (place d 95 (length xs)) v xs
  pub nearly : (v : ℕ) × (s.p99 ≡ d.tenths v) × IsRank (place d 99 (length xs)) v xs
  pub largest : (v : ℕ) × (s.max ≡ d.tenths v) × IsRank (length xs) v xs

none_smaller : (x : ℕ) (xs : List ℕ) → All (λ y. x ≤ y) xs → how_many (λ y. ltb y x) xs ≡ 0
none_smaller x [] h = refl
none_smaller x (y ∷ ys) h = ground (arith, h.0, none_smaller x ys h.1)

item_at-least :
    (x : ℕ) (xs : List ℕ) (i : ℕ) → All (λ y. x ≤ y) xs → i < length xs → x ≤ item_at i xs
item_at-least x [] i h lt = absurd (omega arith)
item_at-least x (y ∷ ys) zero h lt = h.0
item_at-least x (y ∷ ys) (suc i) h lt = item_at-least x ys i h.1 (omega arith)

how_many-smaller :
    (x v : ℕ) (xs : List ℕ) → how_many (λ y. ltb y v) (x ∷ xs) ≤ how_many (λ y. ltb y v) xs + 1
how_many-smaller x v xs = ground arith

how_many-larger :
    (x v : ℕ) (xs : List ℕ)
    → x ≤ v
    → how_many (λ y. leb y v) (x ∷ xs) ≡ how_many (λ y. leb y v) xs + 1
how_many-larger x v xs h = ground arith

itself : (x : ℕ) (xs : List ℕ) → how_many (λ y. ltb y x) (x ∷ xs) ≡ how_many (λ y. ltb y x) xs
itself x xs = ground arith

item_at-IsRank :
    (xs : List ℕ) (i : ℕ) → IsNondecreasing xs → i < length xs → IsRank (i + 1) (item_at i xs) xs
item_at-IsRank [] i h lt = absurd (omega arith)
item_at-IsRank (x ∷ xs) zero h lt = record {
  smaller = omega (arith, how_many-smaller x x xs, none_smaller x xs h.0, itself x xs);
  not_larger = omega (arith, how_many-larger x x xs (omega arith));
}
item_at-IsRank (x ∷ xs) (suc i) h lt =
    let inner = item_at-IsRank xs i h.1 (omega arith) in
    let least = item_at-least x xs i h.0 (omega arith) in
    record {
      smaller = omega (arith, inner.smaller, how_many-smaller x (item_at i xs) xs);
      not_larger = omega (arith, inner.not_larger, how_many-larger x (item_at i xs) xs least);
    }

IsRank-sort : (k v : ℕ) (xs : List ℕ) → IsRank k v (sort xs) → IsRank k v xs
IsRank-sort k v xs h = record {
  smaller = subst (λ n. n < k) (length-filter-sort (λ x. ltb x v) xs) h.smaller;
  not_larger = subst (λ n. k ≤ n) (length-filter-sort (λ x. leb x v) xs) h.not_larger;
}

module _ (d : Doubles) where
  pub IsRanked-sort : (xs : List ℕ) (s : Stats) → IsRanked d (sort xs) s → IsRanked d xs s
  IsRanked-sort xs s h = record {
    half = unsorted 50 xs s.p50 h.half;
    most = unsorted 95 xs s.p95 h.most;
    nearly = unsorted 99 xs s.p99 h.nearly;
    largest =
        let (v, e, rank) = h.largest in
        (
          v,
          e,
          subst (λ n. IsRank n v xs) (length-sort xs) (IsRank-sort (length (sort xs)) v xs rank),
        );
  }
    where
      unsorted :
          (p : ℕ) (xs : List ℕ) (figure : ℕ)
          → (v : ℕ) × (figure ≡ d.tenths v) × IsRank (place d p (length (sort xs))) v (sort xs)
          → (v : ℕ) × (figure ≡ d.tenths v) × IsRank (place d p (length xs)) v xs
      unsorted p xs figure (v, e, rank) = (
        v,
        e,
        subst (λ n. IsRank (place d p n) v xs) (length-sort xs)
            (IsRank-sort (place d p (length (sort xs))) v xs rank),
      )

  module _ (law : IsDoubles d) where
    percentile-IsRank :
        (p : ℕ) (x : ℕ) (xs : List ℕ)
        → IsNondecreasing (x ∷ xs)
        → p ≤ 100
        → IsRank (place d p (length (x ∷ xs))) (percentile d (x ∷ xs) p) (x ∷ xs)
    unfolding percentile
    percentile-IsRank p x xs h most =
        item_at-IsRank (x ∷ xs) (d.ceil_share p (length (x ∷ xs)) - 1) h
          (omega (arith, law.share_bound p (length (x ∷ xs)) most))

    IsRanked-of_sorted :
        (sorted : List ℕ)
        → IsNondecreasing sorted
        → 0 < length sorted
        → IsRanked d sorted (record {
          count = length sorted;
          p50 = d.tenths (percentile d sorted 50);
          p95 = d.tenths (percentile d sorted 95);
          p99 = d.tenths (percentile d sorted 99);
          max = d.tenths (item_at (length sorted - 1) sorted);
        })
    IsRanked-of_sorted [] h lt = absurd (omega arith)
    IsRanked-of_sorted (x ∷ xs) h lt = record {
      half = (percentile d (x ∷ xs) 50, refl, percentile-IsRank 50 x xs h (omega arith));
      most = (percentile d (x ∷ xs) 95, refl, percentile-IsRank 95 x xs h (omega arith));
      nearly = (percentile d (x ∷ xs) 99, refl, percentile-IsRank 99 x xs h (omega arith));
      largest =
          let last : length (x ∷ xs) - 1 + 1 ≡ length (x ∷ xs) = omega arith in
          (
            item_at (length (x ∷ xs) - 1) (x ∷ xs),
            refl,
            subst (λ n. IsRank n (item_at (length (x ∷ xs) - 1) (x ∷ xs)) (x ∷ xs)) last
                (item_at-IsRank (x ∷ xs) (length (x ∷ xs) - 1) h (omega arith)),
          );
    }

    -- the summary of a list gives the values at the places of its percentages
    pub stats-IsRanked :
        (v : ℕ) (vs : List ℕ) (s : Stats) → stats d (v ∷ vs) ≡ some s → IsRanked d (v ∷ vs) s
    unfolding stats
    stats-IsRanked v vs s e = IsRanked-sort (v ∷ vs) s (
        subst (IsRanked d (sort (v ∷ vs))) (some_inj.0 e) (
          IsRanked-of_sorted (sort (v ∷ vs)) (sort-IsNondecreasing (v ∷ vs))
            (omega (arith, length-sort (v ∷ vs)))))
