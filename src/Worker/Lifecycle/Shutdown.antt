-- ===== src/Worker/Lifecycle/Shutdown.antt =====
-- `onApplicationShutdown` of src/worker/worker-consumer.service.ts, among the deliveries and the
-- tasks of the chains. amqplib and the broker are documented behaviour: no delivery follows the
-- answer to a `cancel`, and a `cancel` that is refused has found its channel closed, which delivers
-- nothing more.
use geofence_location.Prelude.{
  ℕ, String, ◌≡◌, Bool, true, false, List, [], ◌∷◌, Dict, contains, eqb, All, if◌then◌else◌,
}
use geofence_location.Worker.Chains
use geofence_location.Worker.Chains.{settled, Chains, enqueue}
use geofence_location.Worker.Lifecycle.{Boot}

-- How far the process has come; the tags in `cancelling` are those whose `cancel` is to come, the
-- tasks in `draining` those that `Promise.allSettled` awaits.
pub data Phase : Type 0 where
  serving : Phase
  cancelling : List ℕ → Phase
  draining : List ℕ → Phase
  closing_channel closing_connection stopped exited : Phase

-- `delivering` are the consumers that the broker may deliver to.
pub record Process : Type 0 where
  pub chains : Chains
  pub consumer_tags : List ℕ
  pub delivering : List ℕ
  pub closing : Bool
  pub phase : Phase

-- `userChains.values()`
abbrev pub values : {V : Type 0} → Dict V → List V
values [] = []
values (entry ∷ dict) = entry.1 ∷ values dict

-- the first lines of the shutdown: `closing`, and the loop over `consumerTags`
unfoldable pub begin_shutdown : Process → Process
begin_shutdown s = record s { closing = true; phase = cancelling s.consumer_tags }

abbrev pub without : ℕ → List ℕ → List ℕ
without tag [] = []
without tag (t ∷ ts) = if eqb t tag then without tag ts else t ∷ without tag ts

-- a `cancel` is answered
unfoldable pub cancelled : ℕ → List ℕ → Process → Process
cancelled tag rest s = record s { delivering = without tag s.delivering; phase = cancelling rest }

-- behind the loop, or its `catch`: the chains that are awaited are those of this moment
unfoldable pub await_chains : Process → Process
await_chains s = record s { phase = draining (values s.chains.user_chains) }

-- a `cancel` is refused
unfoldable pub cancel_refused : Process → Process
unfolding await_chains
cancel_refused s = await_chains (record s { delivering = [] })

-- `Promise.allSettled` is over
unfoldable pub close_channel : Process → Process
close_channel s = record s { phase = closing_channel }

-- the channel has closed
unfoldable pub close_connection : Process → Process
close_connection s = record s { phase = closing_connection }

-- the connection has closed, or one of the two closings has thrown
unfoldable pub stop : Process → Process
stop s = record s { phase = stopped }

-- the connection's 'close' event: `process.exit(1)`
unfoldable pub on_connection_close : Process → Process
on_connection_close s = if s.closing then s else record s { delivering = []; phase = exited }

abbrev pub booted : Boot → Chains → Process
booted boot chains = record {
  chains = chains;
  consumer_tags = boot.consumer_tags;
  delivering = boot.consumer_tags;
  closing = false;
  phase = serving;
}

-- The steps of the process. A delivery that does not parse appends nothing, and is no step;
-- `task_step` is any step of the chains but an append.
pub data Step (s : Process) : Process → Type 0 where
  delivery_step :
      (tag : ℕ) (user_id : String)
      → contains s.delivering tag ≡ true
      → Step s (record s { chains = enqueue user_id s.chains })
  task_step :
      (chains : Chains)
      → Chains.Step s.chains chains
      → chains.next ≡ s.chains.next
      → Step s (record s { chains = chains })
  shutdown_step : s.phase ≡ serving → Step s (begin_shutdown s)
  cancelled_step :
      (tag : ℕ) (rest : List ℕ) → s.phase ≡ cancelling (tag ∷ rest) → Step s (cancelled tag rest s)
  refused_step :
      (tag : ℕ) (rest : List ℕ) → s.phase ≡ cancelling (tag ∷ rest) → Step s (cancel_refused s)
  all_cancelled_step : s.phase ≡ cancelling [] → Step s (await_chains s)
  drained_step :
      (tasks : List ℕ)
      → s.phase ≡ draining tasks
      → All (λ t. s.chains.status t ≡ settled) tasks
      → Step s (close_channel s)
  channel_closed_step : s.phase ≡ closing_channel → Step s (close_connection s)
  channel_throws_step : s.phase ≡ closing_channel → Step s (stop s)
  connection_closed_step : s.phase ≡ closing_connection → Step s (stop s)
  connection_lost_step : Step s (on_connection_close s)

-- The states of a process that has booted; tasks may have been appended while the boot went on.
pub data Run : Process → Type 0 where
  start_serving : (boot : Boot) (chains : Chains) → Chains.Reach chains → Run (booted boot chains)
  next : {s s' : Process} → Run s → Step s s' → Run s'
