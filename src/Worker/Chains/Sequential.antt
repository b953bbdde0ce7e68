-- ===== src/Worker/Chains/Sequential.antt =====
-- The chains of src/worker/worker-consumer.service.ts, over every order in which tasks arrive, run
-- and end.
use native.Mathlib.Decide.{dec_lt}
use geofence_location.Prelude.{
  ℕ, ◌<◌, String, ◌≡◌, ◌≢◌, sym, true, none, arith, lookup, Option-cases, inl, inr,
}
use geofence_location.Worker.Chains.{waiting, running, settled, Chains, is_ready, Reach}
use geofence_location.Worker.Chains.Order.{AllSettled}
use geofence_location.Worker.Chains.Steps.{Reach-IsOrdered}

-- At any time a task that has started, or has settled, has only settled tasks of its user before
-- it: the events of one user are processed one after another in the order of their delivery.
pub started_in_order :
    {c : Chains} (p r : ℕ)
    → Reach c
    → p < c.next
    → r < p
    → c.user r ≡ c.user p
    → c.status p ≢ waiting
    → c.status r ≡ settled
started_in_order p r reach lt before same started =
    (Reach-IsOrdered reach).order p lt started r before same

-- At any time no two tasks of one user are running.
pub running_alone :
    {c : Chains} (p r : ℕ)
    → Reach c
    → p < c.next
    → r < c.next
    → c.user r ≡ c.user p
    → c.status p ≡ running
    → c.status r ≡ running
    → p ≡ r
running_alone p r reach lp lr same hp hr = elim (dec_lt r p) [
  | yes before ↦ cc (started_in_order p r reach lp before same (λ w. cc (hp, w)), hr)
  | no not_before ↦ elim (dec_lt p r) [
    | yes after ↦ cc (started_in_order r p reach lr after (sym same) (λ w. cc (hr, w)), hp)
    | no not_after ↦ omega arith
  ]
]

-- At any time, if a user has no entry in `userChains`, every event of the user has been settled: a
-- chain that starts afresh overtakes nothing, and a cleanup never deletes the entry of a chain that
-- still has work.
pub no_entry_settled :
    {c : Chains} (u : String) (p : ℕ)
    → Reach c
    → lookup u c.user_chains ≡ none
    → p < c.next
    → c.user p ≡ u
    → c.status p ≡ settled
no_entry_settled u p reach gone lt own = (Reach-IsOrdered reach).gone u gone p lt own

-- At any time the oldest waiting task of a user may be called, whatever other users' tasks do: no
-- chain is stuck.
pub oldest_ready :
    {c : Chains} (p : ℕ) → Reach c → p < c.next → AllSettled c (c.user p) p → is_ready c p ≡ true
unfolding is_ready
oldest_ready {c} p reach lt older = elim (Option-cases (c.previous p)) [
  | inl none_before ↦ ground arith
  | inr (q, linked) ↦
      let l = (Reach-IsOrdered reach).links p q lt linked in ground (arith, older q l.before l.own)
]
