-- ===== src/Tests/Harness.antt =====
-- Runs of the load harness.
use Prim.Native.Nat.{◌/◌}
use native.Mathlib.Nat.{mul-le-mul_right}
use geofence_location.Prelude.{
  ℕ, ◌+◌, ◌*◌, ◌-◌, ◌≤◌, ◌≡◌, refl, true, false, none, some, List, [], ◌∷◌, arith, sort, min,
}
use geofence_location.Harness.Polling.{
  Drain, drained_in, Wait, wait_for_drain, Advances, IsEnded, wait_for_drain-ends,
}
use geofence_location.Harness.Load.{
  Doubles, percentile, stats, Request, count_error, record_request, record_requests, run_load,
}
use geofence_location.Harness.Load.Ordered.{IsDoubles}
use geofence_location.Harness.Load.Counted.{IsReported, run_load-IsReported}
use geofence_location.Harness.Tracers.{
  out_of_entry, out_of_exit, tracer_round, tracer_loop, outside,
}
use geofence_location.Harness.Samples.{max_or_zero, growth, depth_summary}

-- 30 messages, ten fewer in each round of 200 ms
abbrev draining : Wait
draining = record {
  messages = λ i. some (30 - i * 10);
  started = 1000;
  now_drained = λ i. 1000 + i * 200;
  now_checked = λ i. 1001 + i * 200;
}

unfoldable harness_runs : Unit {0}
unfolding sort wait_for_drain percentile stats count_error record_request record_requests run_load
    out_of_entry out_of_exit tracer_round tracer_loop max_or_zero growth depth_summary
harness_runs = tt

drained : wait_for_drain draining 900 0 10 ≡ some (drained_in 600)
unfolding harness_runs
drained = refl

draining-Advances : Advances draining.now_checked
draining-Advances i = omega arith

wait_for_drain-ends_example :
    (r : Drain) × ((wait_for_drain draining 900 0 (900 + 2) ≡ some r) × IsEnded draining 900 0 r)
wait_for_drain-ends_example = wait_for_drain-ends draining 900 draining-Advances (omega arith)

-- exact fractions, and no rounding
abbrev exact : Doubles
exact = record {
  ceil_share = λ p n. min n ((p * n + 99) / 100);
  tenths = λ ns. ns / 100000;
  per_second = λ n ms. n * 1000 / ms;
}

exact-IsDoubles : IsDoubles exact
exact-IsDoubles = record {
  share_mono = λ p q n le. share p q n le;
  share_bound = λ p n le. omega arith;
  tenths_mono = λ a b le. omega arith;
}
  where
    share : (p q n : ℕ) → p ≤ q → min n ((p * n + 99) / 100) ≤ min n ((q * n + 99) / 100)
    share p q n le = omega (arith, mul-le-mul_right n le)

abbrev answered : List Request
answered =
    record { status = 202; latency = 700000; measured = false }
    ∷ record { status = 202; latency = 900000; measured = true }
    ∷ record { status = 503; latency = 100000; measured = true }
    ∷ record { status = 202; latency = 300000; measured = true }
    ∷ []

run_load-IsReported_example : IsReported exact 202 answered (run_load exact 50 202 10000 answered)
run_load-IsReported_example = run_load-IsReported exact exact-IsDoubles 50 202 10000 answered

-- an entry that is seen, a refused request, an exit that is not seen in time
traced :
    (tracer_loop
      (record { status = 202; seen = some 40 }
        ∷ record { status = 0; seen = none }
        ∷ record { status = 202; seen = none }
        ∷ [])
      outside).out.timeouts
    ≡ 1
unfolding harness_runs
traced = refl
