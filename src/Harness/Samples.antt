-- ===== src/Harness/Samples.antt =====
-- `depthSummary` and the summary of `withPgSampling` in src/scripts/measure-presence.mjs. The
-- arithmetic of doubles stands in a parameter.
use geofence_location.Prelude.{
  ℕ, ◌+◌, ◌-◌, ◌&&◌, Option, none, some, List, [], ◌∷◌, ℤ, pos, length, filter, map, ltb, leb,
  if◌then◌else◌,
}

pub record DepthSample : Type 0 where
  pub t : ℕ
  pub messages : ℕ

pub record DepthSummary : Type 0 where
  pub max : ℕ
  pub at_load_end : ℕ
  pub growth_per_sec : ℤ

-- `Math.max(...xs)`, and 0 without any
unfoldable pub max_or_zero : List ℕ → ℕ
max_or_zero [] = 0
max_or_zero (x ∷ xs) = let rest = max_or_zero xs in if ltb x rest then rest else x

abbrev pub first_item : {A : Type 0} → List A → Option A
first_item [] = none
first_item (x ∷ xs) = some x

abbrev pub last_item : {A : Type 0} → List A → Option A
last_item [] = none
last_item (x ∷ []) = some x
last_item (x ∷ y ∷ ys) = last_item (y ∷ ys)

-- the growth between two samples, `slope` of their messages and the time between them
unfoldable pub growth : (ℕ → ℕ → ℕ → ℤ) → Option DepthSample → Option DepthSample → ℤ
growth slope (some first) (some last) =
    if ltb first.t last.t then slope first.messages last.messages (last.t - first.t) else pos 0
growth slope _ _ = pos 0

abbrev pub messages_of : Option DepthSample → ℕ
messages_of none = 0
messages_of (some sample) = sample.messages

-- depthSummary
unfoldable pub depth_summary : (ℕ → ℕ → ℕ → ℤ) → List DepthSample → ℕ → ℕ → Option DepthSummary
unfolding max_or_zero growth
depth_summary slope series run_start run_end =
    let in_run = filter (λ s. leb run_start s.t && leb s.t run_end) series in
    if ltb (length series) 2
    then none
    else some (record {
      max = max_or_zero (map (λ s. s.messages) in_run);
      at_load_end = messages_of (last_item in_run);
      growth_per_sec = growth slope (first_item in_run) (last_item in_run);
    })

-- a row of pg_stat_activity; the age of a transaction in microseconds
pub record PgSample : Type 0 where
  pub active : ℕ
  pub idle_in_txn : ℕ
  pub total : ℕ
  pub max_xact_us : ℕ

pub record Pool : Type 0 where
  pub avg_active : ℕ
  pub avg_idle_in_txn : ℕ
  pub max_connections : ℕ
  pub max_xact_ms : ℕ

abbrev pub sum : List ℕ → ℕ
sum [] = 0
sum (x ∷ xs) = x + sum xs

-- `+(sum / length).toFixed(2)` in hundredths, as `mean` gives it
unfoldable pub avg : (ℕ → ℕ → ℕ) → List ℕ → ℕ
avg mean [] = 0
avg mean (x ∷ xs) = mean (sum (x ∷ xs)) (length (x ∷ xs))

-- the `pool` of withPgSampling; `tenths` rounds microseconds to tenths of a millisecond
unfoldable pub pool_of : (ℕ → ℕ → ℕ) → (ℕ → ℕ) → List PgSample → Pool
unfolding max_or_zero avg
pool_of mean tenths samples = record {
  avg_active = avg mean (map (λ s. s.active) samples);
  avg_idle_in_txn = avg mean (map (λ s. s.idle_in_txn) samples);
  max_connections = max_or_zero (map (λ s. s.total) samples);
  max_xact_ms = tenths (max_or_zero (map (λ s. s.max_xact_us) samples));
}
