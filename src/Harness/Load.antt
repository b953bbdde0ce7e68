-- ===== src/Harness/Load.antt =====
-- `runLoad`, `stats` and `depthSummary` of src/scripts/measure-presence.mjs. The arithmetic of
-- doubles stands in a parameter.
pub mod Ordered
pub mod Ranked
pub mod Counted
use geofence_location.Prelude.{
  ℕ, zero, suc, ◌+◌, ◌-◌, ◌*◌, Bool, true, false, ◌&&◌, Option, none, some, List, [], ◌∷◌, ◌++◌,
  length, filter, sort, map, ltb, leb, eqb, if◌then◌else◌,
}

-- `Math.ceil((p / 100) * n)`, `+(ns / 1e6).toFixed(1)` in tenths, and `+(n / seconds).toFixed(0)`,
-- as doubles give them.
pub record Doubles : Type 0 where
  pub ceil_share : ℕ → ℕ → ℕ
  pub tenths : ℕ → ℕ
  pub per_second : ℕ → ℕ → ℕ

abbrev pub item_at : ℕ → List ℕ → ℕ
item_at i [] = 0
item_at zero (x ∷ xs) = x
item_at (suc i) (x ∷ xs) = item_at i xs

-- the index `Math.max(0, ceil - 1)` lies inside a list that is not empty
unfoldable pub percentile : Doubles → List ℕ → ℕ → ℕ
percentile d sorted p = item_at (d.ceil_share p (length sorted) - 1) sorted

pub record Stats : Type 0 where
  pub count : ℕ
  pub p50 : ℕ
  pub p95 : ℕ
  pub p99 : ℕ
  pub max : ℕ

unfoldable pub stats : Doubles → List ℕ → Option Stats
unfolding percentile
stats d [] = none
stats d (v ∷ vs) =
    let sorted = sort (v ∷ vs) in
    some (record {
      count = length sorted;
      p50 = d.tenths (percentile d sorted 50);
      p95 = d.tenths (percentile d sorted 95);
      p99 = d.tenths (percentile d sorted 99);
      max = d.tenths (item_at (length sorted - 1) sorted);
    })

-- a request that has been answered: its status, its latency, and whether the warm-up was over
pub record Request : Type 0 where
  pub status : ℕ
  pub latency : ℕ
  pub measured : Bool

-- `latencies`, `errors` by status, `count`
pub record Tally : Type 0 where
  pub latencies : List ℕ
  pub errors : List (ℕ × ℕ)
  pub count : ℕ

-- `errors.set(status, (errors.get(status) ?? 0) + 1)`
unfoldable pub count_error : ℕ → List (ℕ × ℕ) → List (ℕ × ℕ)
count_error status [] = (status, 1) ∷ []
count_error status ((held, n) ∷ errors) =
    let later = count_error status errors in
    if eqb held status then (held, n + 1) ∷ errors else (held, n) ∷ later

-- one round of a worker, once its request is answered
unfoldable pub record_request : ℕ → Request → Tally → Tally
unfolding count_error
record_request ok_status r t =
    if r.measured
    then if eqb r.status ok_status
      then record t { latencies = t.latencies ++ r.latency ∷ []; count = t.count + 1 }
      else record t { errors = count_error r.status t.errors; count = t.count + 1 }
    else t

-- the requests of all workers, in the order in which they are answered
unfoldable pub record_requests : ℕ → List Request → Tally → Tally
unfolding record_request
record_requests ok_status [] t = t
record_requests ok_status (r ∷ rs) t = record_requests ok_status rs (record_request ok_status r t)

pub record LoadResult : Type 0 where
  pub concurrency : ℕ
  pub requests : ℕ
  pub ingest_throughput : ℕ
  pub request_latency : Option Stats
  pub errors : List (ℕ × ℕ)

-- runLoad; `measured_ms` is RUN_MS - WARMUP_MS
unfoldable pub run_load : Doubles → ℕ → ℕ → ℕ → List Request → LoadResult
unfolding stats record_requests
run_load d concurrency ok_status measured_ms answered =
    let t =
      record_requests ok_status answered (record { latencies = []; errors = []; count = 0 }) in
    record {
      concurrency = concurrency;
      requests = t.count;
      ingest_throughput = d.per_second t.count measured_ms;
      request_latency = stats d (sort t.latencies);
      errors = t.errors;
    }
