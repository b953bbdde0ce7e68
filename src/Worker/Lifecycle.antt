-- ===== src/Worker/Lifecycle.antt =====
-- The boot of src/worker/worker-consumer.service.ts: its requests to the broker, one after another.
-- amqplib and the broker are a parameter, which answers each request.
pub mod Booting
pub mod Shutdown
pub mod Draining
use geofence_location.Prelude.{ℕ, String, Option, none, some, List, [], ◌∷◌, ◌++◌, map, decimal}

-- a request, with the arguments that the code passes; a queue is the list of its name's characters
pub data Request : Type 0 where
  connect : Request
  create_channel : Request
  prefetch : ℕ → Request
  check_queue : List ℕ → Request
  consume : List ℕ → Request

-- What the broker does with a request after those made so far: it may refuse it, with an error. The
-- answer to `consume` holds the consumer's tag, which is an opaque name: a number here.
pub record Broker : Type 0 where
  pub refusal : List Request → Request → Option String
  pub consumer_tag : List Request → List ℕ → ℕ

-- WorkerConfig
pub record WorkerConfig : Type 0 where
  pub partitions : List ℕ
  pub prefetch_count : ℕ

-- the requests made so far, and `consumerTags`
pub record Boot : Type 0 where
  pub requests : List Request
  pub consumer_tags : List ℕ

abbrev pub nothing_requested : Boot
nothing_requested = record { requests = []; consumer_tags = [] }

abbrev pub partition_queue_prefix : List ℕ
partition_queue_prefix =
    b'l' ∷ b'o' ∷ b'c' ∷ b'.' ∷ b'e' ∷ b'v' ∷ b'e' ∷ b'n' ∷ b't' ∷ b's' ∷ b'.' ∷ b'p' ∷ []

-- `${PARTITION_QUEUE_PREFIX}${partition}`
unfoldable pub queue_name : ℕ → List ℕ
queue_name partition = partition_queue_prefix ++ decimal partition

-- one awaited request, and `rest` if it is not refused: the error that the boot rejects with
unfoldable pub ask : Broker → Request → (Boot → Option String × Boot) → Boot → Option String × Boot
ask b r rest s =
    let s' : Boot = record s { requests = s.requests ++ r ∷ [] } in
    elim (b.refusal s.requests r) [ some e ↦ (some e, s') | none ↦ rest s' ]

unfoldable pub check_queues :
    Broker → List ℕ → (Boot → Option String × Boot) → Boot → Option String × Boot
unfolding ask
check_queues b [] rest s = rest s
check_queues b (p ∷ ps) rest s = ask b (check_queue (queue_name p)) (check_queues b ps rest) s

-- `consumerTags.push(consumer.consumerTag)`
unfoldable pub push_tag : Broker → List ℕ → List Request → Boot → Boot
push_tag b queue before s = record s {
  consumer_tags = s.consumer_tags ++ b.consumer_tag before queue ∷ [];
}

unfoldable pub consume_queues : Broker → List ℕ → Boot → Option String × Boot
unfolding ask push_tag
consume_queues b [] s = (none, s)
consume_queues b (p ∷ ps) s =
    ask b (consume (queue_name p))
      (λ s'. consume_queues b ps (push_tag b (queue_name p) s.requests s')) s

-- onApplicationBootstrap
unfoldable pub on_application_bootstrap : Broker → WorkerConfig → Option String × Boot
unfolding ask check_queues consume_queues
on_application_bootstrap b config =
    ask b connect
      (ask b create_channel (
        ask b (prefetch config.prefetch_count)
          (check_queues b config.partitions (consume_queues b config.partitions))))
      nothing_requested
