-- ===== src/Tests/Lifecycle.antt =====
-- A worker that boots with two partitions, and a shutdown while a task runs.
use geofence_location.Prelude.{
  ℕ, ◌<◌, ◌≡◌, refl, false, none, some, [], ◌∷◌, contains, decimal, eqb, length, lookup, insert,
  delete, arith, if◌then◌else◌,
}
use geofence_location.Worker.Chains
use geofence_location.Worker.Chains.{
  settled, Chains, no_chains, enqueue, is_ready, start, finish, cleanup, enqueue_step, start_step,
  finish_step,
}
use geofence_location.Worker.Lifecycle.{
  check_queue, connect, create_channel, prefetch, Broker, WorkerConfig, Boot, queue_name, ask,
  check_queues, push_tag, consume_queues, on_application_bootstrap,
}
use geofence_location.Worker.Lifecycle.Shutdown.{
  Process, begin_shutdown, cancelled, await_chains, close_channel, booted, delivery_step, task_step,
  shutdown_step, cancelled_step, all_cancelled_step, drained_step, Run, start_serving, next,
}
use geofence_location.Worker.Lifecycle.Booting.{
  boot_plan, first_refusal, made, on_application_bootstrap-plan,
}
use geofence_location.Worker.Lifecycle.Draining.{closed_after_drain}

abbrev two_partitions : WorkerConfig
two_partitions = record { partitions = 0 ∷ 3 ∷ []; prefetch_count = 16 }

abbrev ready : Broker
ready = record { refusal = λ before r. none; consumer_tag = λ before queue. length before }

-- the queue of partition 3 is missing
abbrev incomplete : Broker
incomplete = record {
  refusal = λ before r. if eqb (length before) 4 then some "404 NOT_FOUND" else none;
  consumer_tag = λ before queue. length before;
}

unfoldable boots : Unit {0}
unfolding decimal queue_name ask check_queues push_tag consume_queues on_application_bootstrap
boots = tt

boots_up :
    on_application_bootstrap ready two_partitions
    ≡ (none, record { requests = boot_plan two_partitions; consumer_tags = 5 ∷ 6 ∷ [] })
unfolding boots
boots_up = refl

missing_queue : on_application_bootstrap incomplete two_partitions ≡ (
  some "404 NOT_FOUND",
  record {
    requests =
        connect
        ∷ create_channel
        ∷ prefetch 16
        ∷ check_queue (queue_name 0)
        ∷ check_queue (queue_name 3)
        ∷ [];
    consumer_tags = [];
  },
)
unfolding boots
missing_queue = refl

on_application_bootstrap-plan_example :
    ((on_application_bootstrap incomplete two_partitions).0
      ≡ first_refusal incomplete [] (boot_plan two_partitions))
    × (((on_application_bootstrap incomplete two_partitions).1.requests
          ≡ made incomplete [] (boot_plan two_partitions))
        × ((p q : ℕ) → queue_name p ≡ queue_name q → p ≡ q))
on_application_bootstrap-plan_example = on_application_bootstrap-plan incomplete two_partitions

abbrev one_consumer : Boot
one_consumer = record { requests = []; consumer_tags = 5 ∷ [] }

unfoldable shuts_down : Unit {0}
unfolding lookup insert delete enqueue is_ready start finish cleanup begin_shutdown cancelled
    await_chains close_channel
shuts_down = tt

abbrev working : Chains
working = start 0 (enqueue "ann" no_chains)

abbrev asked_to_stop : Process
asked_to_stop = begin_shutdown (record (booted one_consumer no_chains) { chains = working })

abbrev awaiting : Process
awaiting = await_chains (cancelled 5 [] asked_to_stop)

abbrev closed : Process
closed = close_channel (record awaiting { chains = finish 0 working })

Run-closed : Run closed
unfolding shuts_down
Run-closed =
    let served =
      next (start_serving one_consumer no_chains Chains.boot) (delivery_step 5 "ann" refl) in
    let running = next served (task_step working (start_step 0 (omega arith) refl refl) refl) in
    let silent =
      next (next (next running (shutdown_step refl)) (cancelled_step 5 [] refl))
        (all_cancelled_step refl) in
    next (next silent (task_step (finish 0 working) (finish_step 0 (omega arith) refl) refl))
      (drained_step (0 ∷ []) refl (refl, tt))

closed_after_drain_example :
    ((tag : ℕ) → contains closed.delivering tag ≡ false)
    × ((p : ℕ) → p < closed.chains.next → closed.chains.status p ≡ settled)
unfolding shuts_down
closed_after_drain_example = closed_after_drain Run-closed refl
