-- ===== src/Tests/Chains.antt =====
-- A run of the chains: two events of one user and one of another.
use geofence_location.Prelude.{ℕ, zero, suc, eq_iff, ◌≡◌, refl, true, arith, lookup, insert, delete}
use geofence_location.Worker.Chains.{
  settled, Chains, no_chains, enqueue, is_ready, start, finish, cleanup, Reach, boot, next,
  enqueue_step, start_step, finish_step, cleanup_step,
}
use geofence_location.Worker.Chains.Order.{AllSettled}
use geofence_location.Worker.Chains.Sequential.{
  started_in_order, running_alone, no_entry_settled, oldest_ready,
}

unfoldable chain_runs : Unit {0}
unfolding lookup insert delete enqueue is_ready start finish cleanup
chain_runs = tt

abbrev appended : Chains
appended = enqueue "ann" (enqueue "bob" (enqueue "ann" no_chains))

-- the first task of each user runs
abbrev both_running : Chains
both_running = start 1 (start 0 appended)

abbrev second_running : Chains
second_running = start 2 (cleanup 0 (finish 0 both_running))

abbrev drained : Chains
drained = cleanup 2 (finish 2 second_running)

Reach-appended : Reach appended
Reach-appended =
    next (next (next boot (enqueue_step "ann")) (enqueue_step "bob")) (enqueue_step "ann")

Reach-both_running : Reach both_running
unfolding chain_runs
Reach-both_running =
    next (next Reach-appended (start_step 0 (omega arith) refl refl))
      (start_step 1 (omega arith) refl refl)

Reach-second_running : Reach second_running
unfolding chain_runs
Reach-second_running =
    next
      (next (next Reach-both_running (finish_step 0 (omega arith) refl))
        (cleanup_step 0 (omega arith) refl))
      (start_step 2 (omega arith) refl refl)

Reach-drained : Reach drained
unfolding chain_runs
Reach-drained =
    next (next Reach-second_running (finish_step 2 (omega arith) refl))
      (cleanup_step 2 (omega arith) refl)

started_in_order_example : second_running.status 0 ≡ settled
unfolding chain_runs
started_in_order_example =
    started_in_order 2 0 Reach-second_running (omega arith) (omega arith) refl (cc)

running_alone_example : ◌≡◌ {A = ℕ} 2 2
unfolding chain_runs
running_alone_example =
    running_alone 2 2 Reach-second_running (omega arith) (omega arith) refl refl refl

no_entry_settled_example : drained.status 0 ≡ settled
unfolding chain_runs
no_entry_settled_example = no_entry_settled "ann" 0 Reach-drained refl (omega arith) refl

abbrev first_settled : Chains
first_settled = cleanup 0 (finish 0 both_running)

Reach-first_settled : Reach first_settled
unfolding chain_runs
Reach-first_settled =
    next (next Reach-both_running (finish_step 0 (omega arith) refl))
      (cleanup_step 0 (omega arith) refl)

first_settled-AllSettled : AllSettled first_settled "ann" 2
unfolding chain_runs
first_settled-AllSettled zero lt own = refl
first_settled-AllSettled (suc zero) lt own = ground (arith, eq_iff "bob" "ann")
first_settled-AllSettled (suc (suc r)) lt own = absurd (omega arith)

oldest_ready_example : is_ready first_settled 2 ≡ true
unfolding chain_runs
oldest_ready_example = oldest_ready 2 Reach-first_settled (omega arith) first_settled-AllSettled
