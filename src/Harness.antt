-- ===== src/Harness.antt =====
-- src/scripts/measure-presence.mjs: the load harness. Its HTTP client, PostgreSQL, the broker and the
-- clock are parameters; a time is a number of milliseconds, a latency one of nanoseconds.
pub mod Polling
pub mod Load
pub mod Tracers
pub mod Warm
pub mod Samples
use geofence_location.Prelude.{
  ℕ, zero, suc, ◌+◌, Bool, ltb, Option, none, some, List, [], ◌∷◌, ◌++◌, decimal,
}

-- `loc.events.p${i}`
unfoldable pub queue_name : ℕ → List ℕ
queue_name i =
    (b'l' ∷ b'o' ∷ b'c' ∷ b'.' ∷ b'e' ∷ b'v' ∷ b'e' ∷ b'n' ∷ b't' ∷ b's' ∷ b'.' ∷ b'p' ∷ [])
    ++ decimal i

-- what `checkQueue` answers
pub record QueueInfo : Type 0 where
  pub message_count : ℕ
  pub consumer_count : ℕ

pub record Totals : Type 0 where
  pub messages : ℕ
  pub consumers : ℕ

-- the loop of queueTotals from `i`, of `rounds` rounds; none if a `checkQueue` rejects
unfoldable pub add_queues : (List ℕ → Option QueueInfo) → ℕ → ℕ → Totals → Option Totals
add_queues check i zero t = some t
add_queues check i (suc rounds) t = elim (check (queue_name i)) [
  | none ↦ none
  | some q ↦ add_queues check (i + 1) rounds (record {
    messages = t.messages + q.message_count;
    consumers = t.consumers + q.consumer_count;
  })
]

-- queueTotals
unfoldable pub queue_totals : (List ℕ → Option QueueInfo) → ℕ → Option Totals
unfolding add_queues
queue_totals check partitions =
    add_queues check 0 partitions (record { messages = 0; consumers = 0 })

-- the queues that purgeAllPartitions purges from `i` on, in their order
unfoldable pub purged_queues : ℕ → ℕ → List (List ℕ)
purged_queues i zero = []
purged_queues i (suc rounds) = queue_name i ∷ purged_queues (i + 1) rounds

-- purgeAllPartitions, if none is refused
unfoldable pub purge_all_partitions : ℕ → List (List ℕ)
unfolding purged_queues
purge_all_partitions partitions = purged_queues 0 partitions

-- ensurePrerequisites: the process exits, or it is said whether a worker is there
pub data Prerequisites : Type 0 where
  fatal : Prerequisites
  ready : Bool → Prerequisites

-- by the ids of the areas with the fixture's name, and the totals; none if queueTotals rejects
unfoldable pub ensure_prerequisites : List ℕ → Option Totals → Option Prerequisites
ensure_prerequisites [] totals = some fatal
ensure_prerequisites (_ ∷ _) none = none
ensure_prerequisites (_ ∷ _) (some totals) = some (ready (ltb 0 totals.consumers))
