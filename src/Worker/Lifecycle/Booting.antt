-- ===== src/Worker/Lifecycle/Booting.antt =====
-- The boot of src/worker/worker-consumer.service.ts against the list of requests that it plans.
use mathlib.Core.List.{append_cancel_left}
use geofence_location.Prelude.{
  ℕ, ◌≡◌, refl, inl, inr, Option, none, some, String, List, [], ◌∷◌, ◌++◌, map, Option-cases,
  decimal, decimal-inj,
}
use geofence_location.Worker.Lifecycle.{
  Request, connect, create_channel, prefetch, check_queue, consume, Broker, WorkerConfig, Boot,
  nothing_requested, partition_queue_prefix, queue_name, ask, check_queues, push_tag,
  consume_queues, on_application_bootstrap,
}

-- a broker and a list of requests: those that are made, up to the first that is refused
abbrev pub made : Broker → List Request → List Request → List Request
made b before [] = before
made b before (r ∷ rs) = elim (b.refusal before r) [
  | some _ ↦ before ++ r ∷ []
  | none ↦ made b (before ++ r ∷ []) rs
]

-- the error of the first request that is refused
abbrev pub first_refusal : Broker → List Request → List Request → Option String
first_refusal b before [] = none
first_refusal b before (r ∷ rs) = elim (b.refusal before r) [
  | some e ↦ some e
  | none ↦ first_refusal b (before ++ r ∷ []) rs
]

abbrev pub consumptions : List ℕ → List Request
consumptions = map (λ p. consume (queue_name p))

abbrev pub verifications : List ℕ → List Request
verifications = map (λ p. check_queue (queue_name p))

-- all queues are verified before the first is consumed
abbrev pub boot_plan : WorkerConfig → List Request
boot_plan config =
    connect
    ∷ create_channel
    ∷ prefetch config.prefetch_count
    ∷ (verifications config.partitions ++ consumptions config.partitions)

abbrev Follows : Broker → (Boot → Option String × Boot) → List Request → Type 0
Follows b run plan =
    (s : Boot)
    → ((run s).0 ≡ first_refusal b s.requests plan) × ((run s).1.requests ≡ made b s.requests plan)

ask-Follows :
    (b : Broker) (r : Request) (rest : Boot → Option String × Boot) (plan : List Request)
    → Follows b rest plan
    → Follows b (ask b r rest) (r ∷ plan)
unfolding ask
ask-Follows b r rest plan h s = elim (Option-cases (b.refusal s.requests r)) [
  | inl passes ↦
      rw (ask, made, first_refusal, passes) (h (record s { requests = s.requests ++ r ∷ [] }))
  | inr (e, refused) ↦ rw (ask, made, first_refusal, refused) (refl, refl)
]

consume_queues-Follows :
    (b : Broker) (ps : List ℕ) → Follows b (consume_queues b ps) (consumptions ps)
unfolding consume_queues
consume_queues-Follows b [] s = (refl, refl)
consume_queues-Follows b (p ∷ ps) s =
    ask-Follows b (consume (queue_name p))
      (λ s'. consume_queues b ps (push_tag b (queue_name p) s.requests s')) (consumptions ps)
      (λ s'.
        unfold push_tag in consume_queues-Follows b ps (push_tag b (queue_name p) s.requests s'))
      s

check_queues-Follows :
    (b : Broker) (ps : List ℕ) (rest : Boot → Option String × Boot) (plan : List Request)
    → Follows b rest plan
    → Follows b (check_queues b ps rest) (verifications ps ++ plan)
unfolding check_queues
check_queues-Follows b [] rest plan h = h
check_queues-Follows b (p ∷ ps) rest plan h =
    ask-Follows b (check_queue (queue_name p)) (check_queues b ps rest) (verifications ps ++ plan)
      (check_queues-Follows b ps rest plan h)

queue_name-inj : (p q : ℕ) → queue_name p ≡ queue_name q → p ≡ q
unfolding queue_name
queue_name-inj p q e =
    decimal-inj p q (append_cancel_left partition_queue_prefix (decimal p) (decimal q) e)

-- The boot makes the planned requests in their order, up to the first that the broker refuses, and
-- rejects with that refusal, if there is one; the plan verifies the queue of every partition before
-- it consumes the first, and no two partitions share a queue.
pub on_application_bootstrap-plan :
    (b : Broker) (config : WorkerConfig)
    → ((on_application_bootstrap b config).0 ≡ first_refusal b [] (boot_plan config))
      × (((on_application_bootstrap b config).1.requests ≡ made b [] (boot_plan config))
          × ((p q : ℕ) → queue_name p ≡ queue_name q → p ≡ q))
unfolding on_application_bootstrap
on_application_bootstrap-plan b config =
    let subscribing =
      check_queues-Follows b config.partitions (consume_queues b config.partitions)
        (consumptions config.partitions) (consume_queues-Follows b config.partitions) in
    let verify = check_queues b config.partitions (consume_queues b config.partitions) in
    let verify_plan = verifications config.partitions ++ consumptions config.partitions in
    let budget = prefetch config.prefetch_count in
    let (outcome, requests) =
      ask-Follows b connect (ask b create_channel (ask b budget verify))
        (create_channel ∷ budget ∷ verify_plan)
        (ask-Follows b create_channel (ask b budget verify) (budget ∷ verify_plan)
          (ask-Follows b budget verify verify_plan subscribing))
        nothing_requested in
    (outcome, (requests, queue_name-inj))
