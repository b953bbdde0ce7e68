-- ===== src/Worker/Chains.antt =====
-- The per-user promise chains of src/worker/worker-consumer.service.ts (`enqueue`, `userChains`).
-- A task is numbered in the order in which it is appended. It waits until the task before it in its
-- chain has settled, runs across any number of awaits, and settles; its cleanup runs some time
-- after that. The event loop chooses which of these steps is next.
pub mod Order
pub mod Steps
pub mod Sequential
use geofence_location.Prelude.{
  ℕ, ◌+◌, ◌<◌, String, ◌≡◌, Bool, true, false, Option, none, some, List, [], Dict, lookup, insert,
  delete, eqb, put, if◌then◌else◌,
}

pub data Status : Type 0 where
  waiting running settled : Status

pub record Chains : Type 0 where
  -- the number of tasks appended so far
  pub next : ℕ
  pub user : ℕ → String
  -- the task whose promise `then` was called on; none for `Promise.resolve()`
  pub previous : ℕ → Option ℕ
  pub status : ℕ → Status
  -- userChains: the tail of each live chain
  pub user_chains : Dict ℕ

abbrev pub no_chains : Chains
no_chains = record {
  next = 0;
  user = λ _. "";
  previous = λ _. none;
  status = λ _. waiting;
  user_chains = [];
}

-- `enqueue(userId, task)`: the new task is the tail of its user's chain
unfoldable pub enqueue : String → Chains → Chains
enqueue user_id c = record {
  next = c.next + 1;
  user = put c.next user_id c.user;
  previous = put c.next (lookup user_id c.user_chains) c.previous;
  status = put c.next waiting c.status;
  user_chains = insert user_id c.next c.user_chains;
}

unfoldable pub is_settled : Status → Bool
is_settled settled = true
is_settled _ = false

-- `previous.then(task)` may call the task
unfoldable pub is_ready : Chains → ℕ → Bool
unfolding is_settled
is_ready c p = elim (c.previous p) [ none ↦ true | some q ↦ is_settled (c.status q) ]

unfoldable pub start : ℕ → Chains → Chains
start p c = record c { status = put p running c.status }

-- the task's promise settles, also if the task throws (`catch`)
unfoldable pub finish : ℕ → Chains → Chains
finish p c = record c { status = put p settled c.status }

abbrev pub is_tail : Option ℕ → ℕ → Bool
is_tail none p = false
is_tail (some q) p = eqb q p

-- `tail.then(...)`: the entry goes only if it still is this tail
unfoldable pub cleanup : ℕ → Chains → Chains
cleanup p c =
    if is_tail (lookup (c.user p) c.user_chains) p
    then record c { user_chains = delete (c.user p) c.user_chains }
    else c

pub data Step (c : Chains) : Chains → Type 0 where
  enqueue_step : (user_id : String) → Step c (enqueue user_id c)
  start_step :
      (p : ℕ) → p < c.next → c.status p ≡ waiting → is_ready c p ≡ true → Step c (start p c)
  finish_step : (p : ℕ) → p < c.next → c.status p ≡ running → Step c (finish p c)
  cleanup_step : (p : ℕ) → p < c.next → c.status p ≡ settled → Step c (cleanup p c)

pub data Reach : Chains → Type 0 where
  boot : Reach no_chains
  next : {c c' : Chains} → Reach c → Step c c' → Reach c'
