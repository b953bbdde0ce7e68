-- ===== src/Worker/Lifecycle/Draining.antt =====
-- The shutdown of src/worker/worker-consumer.service.ts, over every order of its steps with the
-- deliveries and the tasks.
use native.Mathlib.Decide.{dec_lt}
use geofence_location.Prelude.{
  ℕ, ◌<◌, ◌≤◌, String, ◌≡◌, refl, sym, ◌∙◌, subst, ◌⊎◌, inl, inr, Bool, true, false, not, ◌&&◌,
  some, List, [], ◌∷◌, Dict, lookup, contains, eqb, eqb_iff, All, All-contains, arith, ◌==◌,
  Bool-cases, Option-cases, if◌then◌else◌,
}
use geofence_location.Worker.Chains
use geofence_location.Worker.Chains.{
  waiting, running, settled, Chains, enqueue, start, finish, cleanup, is_tail, enqueue_step,
  start_step, finish_step, cleanup_step,
}
use geofence_location.Worker.Chains.Order.{IsLastBefore}
use geofence_location.Worker.Chains.Steps.{Reach-IsOrdered}
use geofence_location.Worker.Lifecycle.Shutdown.{
  Phase, serving, cancelling, draining, closing_channel, closing_connection, stopped, exited,
  Process, values, begin_shutdown, without, cancelled, await_chains, cancel_refused, close_channel,
  close_connection, stop, on_connection_close, Step, delivery_step, task_step, shutdown_step,
  cancelled_step, refused_step, all_cancelled_step, drained_step, channel_closed_step,
  channel_throws_step, connection_closed_step, connection_lost_step, Run, start_serving, next,
}

-- what a step of the chains that is no append keeps
record Keeps (c c' : Chains) : Type 0 where
  user : (p : ℕ) → c'.user p ≡ c.user p
  done : (p : ℕ) → c.status p ≡ settled → c'.status p ≡ settled

Step-Keeps : {c c' : Chains} → Chains.Step c c' → c'.next ≡ c.next → Keeps c c'
unfolding enqueue start finish cleanup
Step-Keeps (enqueue_step user_id) e = absurd (omega (arith, e))
Step-Keeps (start_step p lt waits ready) e = record {
  user = λ q. refl;
  done = λ q h. ground (arith, eqb_iff q p);
}
Step-Keeps (finish_step p lt runs) e = record { user = λ q. refl; done = λ q h. ground arith }
Step-Keeps {c} (cleanup_step p lt done) e =
    elim (Bool-cases (is_tail (lookup (c.user p) c.user_chains) p)) [
      | inl tail ↦ rw tail (record { user = λ q. refl; done = λ q h. h })
      | inr newer ↦ rw newer (record { user = λ q. refl; done = λ q h. h })
    ]

abbrev AllDone : Chains → Type 0
AllDone c = (p : ℕ) → p < c.next → c.status p ≡ settled

-- a task that has not settled is followed, in its chain, by one of those that are awaited
abbrev IsCovered : Chains → List ℕ → Type 0
IsCovered c tasks =
    (p : ℕ)
    → p < c.next
    → (c.status p ≡ settled)
      ⊎ ((q : ℕ) × ((contains tasks q ≡ true) × ((c.user q ≡ c.user p) × ((q < c.next) × (p ≤ q)))))

abbrev Covers : List ℕ → List ℕ → Type 0
Covers tags delivering = (t : ℕ) → contains delivering t ≡ true → contains tags t ≡ true

abbrev Silent : List ℕ → Type 0
Silent delivering = (t : ℕ) → contains delivering t ≡ false

abbrev Holds : Phase → Process → Type 0
Holds serving s = Covers s.consumer_tags s.delivering
Holds (cancelling rest) s = Covers rest s.delivering
Holds (draining tasks) s = Silent s.delivering × IsCovered s.chains tasks
Holds closing_channel s = Silent s.delivering × AllDone s.chains
Holds closing_connection s = Silent s.delivering × AllDone s.chains
Holds stopped s = Silent s.delivering × AllDone s.chains
Holds exited s = Silent s.delivering

record Inv (s : Process) : Type 0 where
  reach : Chains.Reach s.chains
  holds : Holds s.phase s

contains-values :
    (u : String) (q : ℕ) (dict : Dict ℕ) → lookup u dict ≡ some q → contains (values dict) q ≡ true
unfolding lookup
contains-values u q [] e = cc
contains-values u q ((held, v) ∷ dict) e = elim (Bool-cases (held == u)) [
  | inl same ↦ ground (arith, eqb_iff v q)
  | inr other ↦ ground (arith, contains-values u q dict)
]

-- the tails of the live chains cover all that has not settled
IsCovered-tails : (c : Chains) → Chains.Reach c → IsCovered c (values c.user_chains)
IsCovered-tails c reach p lt = elim (Option-cases (lookup (c.user p) c.user_chains)) [
  | inl gone ↦ inl ((Reach-IsOrdered reach).gone (c.user p) gone p lt refl)
  | inr (q, there) ↦
      let l = (Reach-IsOrdered reach).tails (c.user p) q there in
      inr (q, (contains-values (c.user p) q c.user_chains there, (l.own, (l.before, last l))))
]
  where
    last : {q : ℕ} → IsLastBefore c (c.user p) c.next q → p ≤ q
    last {q} l = elim (dec_lt q p) [
      | yes later ↦ absurd (l.none_between p later lt refl)
      | no not_later ↦ omega arith
    ]

-- once the awaited tasks have settled, all have
AllDone-of_covered :
    (c : Chains) (tasks : List ℕ)
    → Chains.Reach c
    → IsCovered c tasks
    → All (λ t. c.status t ≡ settled) tasks
    → AllDone c
AllDone-of_covered c tasks reach covered done p lt = elim (covered p lt) [
  | inl over ↦ over
  | inr (q, (awaited, (own, (known, le)))) ↦
      let over = All-contains (λ t. c.status t ≡ settled) tasks q done awaited in
      elim (dec_lt p q) [
        | yes before ↦ (Reach-IsOrdered reach).order q known (λ w. cc (over, w)) p before (sym own)
        | no same ↦ let e : q ≡ p = omega arith in subst (λ t. c.status t ≡ settled) e over
      ]
]

contains-without :
    (tag : ℕ) (ts : List ℕ) (t : ℕ)
    → contains (without tag ts) t ≡ (contains ts t && not (eqb tag t))
contains-without tag [] t = refl
contains-without tag (x ∷ ts) t =
    ground (arith, contains-without tag ts t, eqb_iff x tag, eqb_iff x t, eqb_iff tag t)

Holds-delivery :
    (phase : Phase) (s : Process) (c : Chains) (tag : ℕ)
    → contains s.delivering tag ≡ true
    → Holds phase s
    → Holds phase (record s { chains = c })
Holds-delivery serving s c tag d h = h
Holds-delivery (cancelling rest) s c tag d h = h
Holds-delivery (draining tasks) s c tag d h = cc (h.0 tag, d)
Holds-delivery closing_channel s c tag d h = cc (h.0 tag, d)
Holds-delivery closing_connection s c tag d h = cc (h.0 tag, d)
Holds-delivery stopped s c tag d h = cc (h.0 tag, d)
Holds-delivery exited s c tag d h = h

module _ (s : Process) (c : Chains) (k : Keeps s.chains c) (e : c.next ≡ s.chains.next) where
  AllDone-task : AllDone s.chains → AllDone c
  AllDone-task h p lt = k.done p (h p (omega arith))

  IsCovered-task : (tasks : List ℕ) → IsCovered s.chains tasks → IsCovered c tasks
  IsCovered-task tasks h p lt = elim (h p (omega arith)) [
    | inl over ↦ inl (k.done p over)
    | inr (q, (awaited, (own, (known, le)))) ↦
        inr (q, (awaited, (k.user q ∙ own ∙ sym (k.user p), (omega arith, le))))
  ]

  Holds-task : (phase : Phase) → Holds phase s → Holds phase (record s { chains = c })
  Holds-task serving h = h
  Holds-task (cancelling rest) h = h
  Holds-task (draining tasks) h = (h.0, IsCovered-task tasks h.1)
  Holds-task closing_channel h = (h.0, AllDone-task h.1)
  Holds-task closing_connection h = (h.0, AllDone-task h.1)
  Holds-task stopped h = (h.0, AllDone-task h.1)
  Holds-task exited h = h

Covers-cancelled :
    (tag : ℕ) (rest delivering : List ℕ)
    → Covers (tag ∷ rest) delivering
    → Covers rest (without tag delivering)
Covers-cancelled tag rest delivering h t there =
    ground (arith, contains-without tag delivering t, h t, eqb_iff tag t)

Silent-of_Covers : (delivering : List ℕ) → Covers [] delivering → Silent delivering
Silent-of_Covers delivering h t = elim (Bool-cases (contains delivering t)) [
  | inl there ↦ cc (h t there)
  | inr gone ↦ gone
]

module _ {s : Process} (inv : Inv s) where
  Holds-at : {phase : Phase} → s.phase ≡ phase → Holds phase s
  Holds-at e = subst (λ phase. Holds phase s) e inv.holds

  lost_or_expected :
      (closing : Bool) → Inv (if closing then s else record s { delivering = []; phase = exited })
  lost_or_expected true = inv
  lost_or_expected false = record { reach = inv.reach; holds = λ t. refl }

Step-Inv : {s s' : Process} → Step s s' → Inv s → Inv s'
unfolding begin_shutdown cancelled await_chains cancel_refused close_channel close_connection stop
    on_connection_close
Step-Inv {s} (delivery_step tag user_id d) inv = record {
  reach = Chains.Reach.next inv.reach (enqueue_step user_id);
  holds = Holds-delivery s.phase s (enqueue user_id s.chains) tag d inv.holds;
}
Step-Inv {s} (task_step chains step e) inv = record {
  reach = Chains.Reach.next inv.reach step;
  holds = Holds-task s chains (Step-Keeps step e) e s.phase inv.holds;
}
Step-Inv (shutdown_step e) inv = record { reach = inv.reach; holds = Holds-at inv e }
Step-Inv {s} (cancelled_step tag rest e) inv = record {
  reach = inv.reach;
  holds = Covers-cancelled tag rest s.delivering (Holds-at inv e);
}
Step-Inv {s} (refused_step tag rest e) inv = record {
  reach = inv.reach;
  holds = (λ t. refl, IsCovered-tails s.chains inv.reach);
}
Step-Inv {s} (all_cancelled_step e) inv = record {
  reach = inv.reach;
  holds = (Silent-of_Covers s.delivering (Holds-at inv e), IsCovered-tails s.chains inv.reach);
}
Step-Inv {s} (drained_step tasks e done) inv =
    let (silent, covered) = Holds-at inv e in
    record {
      reach = inv.reach;
      holds = (silent, AllDone-of_covered s.chains tasks inv.reach covered done);
    }
Step-Inv (channel_closed_step e) inv = record { reach = inv.reach; holds = Holds-at inv e }
Step-Inv (channel_throws_step e) inv = record { reach = inv.reach; holds = Holds-at inv e }
Step-Inv (connection_closed_step e) inv = record { reach = inv.reach; holds = Holds-at inv e }
Step-Inv {s} connection_lost_step inv = lost_or_expected inv s.closing

Run-Inv : {s : Process} → Run s → Inv s
Run-Inv (start_serving boot chains reach) = record { reach = reach; holds = λ t there. there }
Run-Inv (next run step) = Step-Inv step (Run-Inv run)

-- the process has called `close` on its channel
abbrev pub has_closed : Phase → Bool
has_closed closing_channel = true
has_closed closing_connection = true
has_closed stopped = true
has_closed _ = false

Holds-closed :
    (phase : Phase) (s : Process)
    → has_closed phase ≡ true
    → Holds phase s
    → Silent s.delivering × AllDone s.chains
Holds-closed serving s e h = cc
Holds-closed (cancelling rest) s e h = cc
Holds-closed (draining tasks) s e h = cc
Holds-closed closing_channel s e h = h
Holds-closed closing_connection s e h = h
Holds-closed stopped s e h = h
Holds-closed exited s e h = cc

-- In every state of a process that has booted, whatever the order of deliveries, tasks and the steps
-- of its shutdown: once the shutdown has called `close` on the channel, no consumer delivers, and
-- every task that was ever appended to a chain has settled, so that no event is cut off between its
-- processing and its acknowledgement.
pub closed_after_drain :
    {s : Process}
    → Run s
    → has_closed s.phase ≡ true
    → ((tag : ℕ) → contains s.delivering tag ≡ false)
      × ((p : ℕ) → p < s.chains.next → s.chains.status p ≡ settled)
closed_after_drain {s} run e = Holds-closed s.phase s e (Run-Inv run).holds
