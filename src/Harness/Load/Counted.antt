-- ===== src/Harness/Load/Counted.antt =====
-- The counts of `runLoad` in src/scripts/measure-presence.mjs.
use mathlib.Core.List.{append_assoc, append-nil}
use geofence_location.Prelude.{
  ℕ, ◌+◌, ◌≡◌, refl, sym, ap, subst, ◌∙◌, false, not, ◌&&◌, inl, inr, ◌⊎◌, none, some, List, [],
  ◌∷◌, ◌++◌, length, length-sort, sort, filter, map, eqb, eqb_iff, arith, if◌then◌else◌,
}
use geofence_location.Harness.Load.{
  Doubles, Stats, stats, Request, Tally, count_error, record_request, record_requests, LoadResult,
  run_load,
}
use geofence_location.Harness.Load.Ranked.{IsRanked, IsRanked-sort, stats-IsRanked}
use geofence_location.Harness.Load.Ordered.{IsDoubles, IsOrderedStats, stats-ordered}

-- the requests that were answered after the warm-up, with a status or without it
abbrev pub with_status : ℕ → List Request → List Request
with_status status = filter (λ r. r.measured && eqb r.status status)

abbrev pub without_status : ℕ → List Request → List Request
without_status status = filter (λ r. r.measured && not (eqb r.status status))

abbrev pub sum_errors : List (ℕ × ℕ) → ℕ
sum_errors [] = 0
sum_errors (entry ∷ errors) = entry.1 + sum_errors errors

abbrev pub errors_of : ℕ → List (ℕ × ℕ) → ℕ
errors_of status [] = 0
errors_of status ((held, n) ∷ errors) = if eqb held status then n else errors_of status errors

sum_errors-count_error :
    (status : ℕ) (errors : List (ℕ × ℕ))
    → sum_errors (count_error status errors) ≡ sum_errors errors + 1
unfolding count_error
sum_errors-count_error status [] = refl
sum_errors-count_error status ((held, n) ∷ errors) =
    ground (arith, sum_errors-count_error status errors)

errors_of-count_error :
    (status asked : ℕ) (errors : List (ℕ × ℕ))
    → errors_of asked (count_error status errors)
      ≡ (if eqb status asked then errors_of asked errors + 1 else errors_of asked errors)
unfolding count_error
errors_of-count_error status asked [] = ground arith
errors_of-count_error status asked ((held, n) ∷ errors) = ground (
  arith,
  errors_of-count_error status asked errors,
  eqb_iff held status,
  eqb_iff held asked,
  eqb_iff status asked,
)

module _ (ok : ℕ) where
  abbrev ok_latencies : List Request → List ℕ
  ok_latencies rs = map (λ r. r.latency) (with_status ok rs)

  ok_latencies-cons :
      (r : Request) (rs : List Request)
      → ok_latencies (r ∷ rs) ≡ ok_latencies (r ∷ []) ++ ok_latencies rs
  ok_latencies-cons r rs = ground arith

  latencies-record_request :
      (r : Request) (t : Tally)
      → (record_request ok r t).latencies ≡ t.latencies ++ ok_latencies (r ∷ [])
  unfolding record_request
  latencies-record_request r t = ground (arith, append-nil t.latencies)

  latencies-record_requests :
      (rs : List Request) (t : Tally)
      → (record_requests ok rs t).latencies ≡ t.latencies ++ ok_latencies rs
  unfolding record_requests
  latencies-record_requests [] t = sym (append-nil t.latencies)
  latencies-record_requests (r ∷ rs) t =
      latencies-record_requests rs (record_request ok r t)
      ∙ ap (λ l. l ++ ok_latencies rs) (latencies-record_request r t)
      ∙ append_assoc t.latencies (ok_latencies (r ∷ [])) (ok_latencies rs)
      ∙ ap (λ l. t.latencies ++ l) (sym (ok_latencies-cons r rs))

  sum_errors-record_request :
      (r : Request) (t : Tally)
      → sum_errors (record_request ok r t).errors
        ≡ sum_errors t.errors + length (without_status ok (r ∷ []))
  unfolding record_request
  sum_errors-record_request r t = ground (arith, sum_errors-count_error r.status t.errors)

  count-record_request :
      (r : Request) (t : Tally)
      → (record_request ok r t).count
        ≡ t.count + (length (with_status ok (r ∷ [])) + length (without_status ok (r ∷ [])))
  unfolding record_request
  count-record_request r t = ground arith

  length-without_status :
      (r : Request) (rs : List Request)
      → length (without_status ok (r ∷ rs))
        ≡ length (without_status ok (r ∷ [])) + length (without_status ok rs)
  length-without_status r rs = ground arith

  length-with_status :
      (status : ℕ) (r : Request) (rs : List Request)
      → length (with_status status (r ∷ rs))
        ≡ length (with_status status (r ∷ [])) + length (with_status status rs)
  length-with_status status r rs = ground arith

  sum_errors-record_requests :
      (rs : List Request) (t : Tally)
      → sum_errors (record_requests ok rs t).errors
        ≡ sum_errors t.errors + length (without_status ok rs)
  unfolding record_requests
  sum_errors-record_requests [] t = omega arith
  sum_errors-record_requests (r ∷ rs) t = omega (
    arith,
    sum_errors-record_requests rs (record_request ok r t),
    sum_errors-record_request r t,
    length-without_status r rs,
  )

  count-record_requests :
      (rs : List Request) (t : Tally)
      → (record_requests ok rs t).count
        ≡ t.count + (length (with_status ok rs) + length (without_status ok rs))
  unfolding record_requests
  count-record_requests [] t = omega arith
  count-record_requests (r ∷ rs) t = omega (
    arith,
    count-record_requests rs (record_request ok r t),
    count-record_request r t,
    length-without_status r rs,
    length-with_status ok r rs,
  )

  module _ (status : ℕ) (other : eqb status ok ≡ false) where
    errors_of-record_request :
        (r : Request) (t : Tally)
        → errors_of status (record_request ok r t).errors
          ≡ errors_of status t.errors + length (with_status status (r ∷ []))
    unfolding record_request
    errors_of-record_request r t = ground (
      arith,
      errors_of-count_error r.status status t.errors,
      eqb_iff r.status ok,
      eqb_iff status ok,
      eqb_iff r.status status,
    )

    errors_of-record_requests :
        (rs : List Request) (t : Tally)
        → errors_of status (record_requests ok rs t).errors
          ≡ errors_of status t.errors + length (with_status status rs)
    unfolding record_requests
    errors_of-record_requests [] t = omega arith
    errors_of-record_requests (r ∷ rs) t = omega (
      arith,
      errors_of-record_requests rs (record_request ok r t),
      errors_of-record_request r t,
      length-with_status status r rs,
    )

-- What `runLoad` reports of the requests that were answered after the warm-up.
pub record IsReported (d : Doubles) (ok : ℕ) (answered : List Request) (r : LoadResult)
    : Type 0 where
  pub counted : r.requests ≡ length (with_status ok answered) + length (without_status ok answered)
  pub failed : sum_errors r.errors ≡ length (without_status ok answered)
  pub by_status :
      (status : ℕ)
      → eqb status ok ≡ false
      → errors_of status r.errors ≡ length (with_status status answered)
  pub latency :
      ((length (with_status ok answered) ≡ 0) × (r.request_latency ≡ none))
      ⊎ ((s : Stats) × ((r.request_latency ≡ some s)
            × ((s.count ≡ length (with_status ok answered))
                × (IsOrderedStats s
                    × IsRanked d (map (λ r. r.latency) (with_status ok answered)) s))))

length-map : {A B : Type 0} (f : A → B) (xs : List A) → length (map f xs) ≡ length xs
length-map f [] = refl
length-map f (x ∷ xs) = omega (arith, length-map f xs)

stats-cases :
    (d : Doubles)
    → IsDoubles d
    → (xs : List ℕ)
    → ((length xs ≡ 0) × (stats d xs ≡ none))
      ⊎ ((s : Stats) × ((stats d xs ≡ some s)
            × ((s.count ≡ length xs) × (IsOrderedStats s × IsRanked d xs s))))
stats-cases d law [] = inl (refl, unfold stats in refl)
stats-cases d law (v ∷ vs) =
    let (s, (e, (count, ordered))) = stats-ordered d law v vs in
    inr (s, (e, (count, (ordered, stats-IsRanked d law v vs s e))))

abbrev nothing_measured : Tally
nothing_measured = record { latencies = []; errors = []; count = 0 }

-- Every request that is answered after the warm-up is counted once: as one of the expected status,
-- or as an error of its status. The summary is left out exactly if there is none of the expected
-- status. Else it counts them all, and its 50th, 95th and 99th percentile and its maximum are the
-- rounded latencies at the places of these shares: of all their latencies, fewer than that many are
-- smaller, and at least that many are no larger. They are in order, if the arithmetic of doubles keeps
-- the order of shares and roundings.
pub run_load-IsReported :
    (d : Doubles)
    → IsDoubles d
    → (concurrency ok measured_ms : ℕ) (answered : List Request)
    → IsReported d ok answered (run_load d concurrency ok measured_ms answered)
unfolding run_load
run_load-IsReported d law concurrency ok measured_ms answered =
    let measured = (record_requests ok answered nothing_measured).latencies in
    let all = length-sort measured in
    let held = latencies-record_requests ok answered nothing_measured in
    let ok_count = ap length held ∙ length-map (λ r. r.latency) (with_status ok answered) in
    record {
      counted = omega (arith, count-record_requests ok answered nothing_measured);
      failed = omega (arith, sum_errors-record_requests ok answered nothing_measured);
      by_status = λ status other.
          omega (arith, errors_of-record_requests ok status other answered nothing_measured);
      latency = elim (stats-cases d law (sort measured)) [
        | inl (empty, e) ↦ inl (sym ok_count ∙ sym all ∙ empty, e)
        | inr (s, (e, (count, (ordered, ranked)))) ↦ inr (
          s,
          (
            e,
            (
              count ∙ all ∙ ok_count,
              (ordered, subst (λ l. IsRanked d l s) held (IsRanked-sort d measured s ranked)),
            ),
          ),
        )
      ];
    }
