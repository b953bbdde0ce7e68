-- ===== src/Tests/Mq.antt =====
-- An outage of the broker, publishes, and an accepted position.
use geofence_location.Prelude.{
  ◌^◌, ◌*◌, ◌+◌, ◌≤◌, min, ◌≡◌, ◌↔◌, ◌⊎◌, refl, true, Option, String, none, some, List, [], ◌∷◌,
  whole, arith,
}
use geofence_location.Locations.{is_too_uncertain}
use geofence_location.Mq.{
  Publisher, booted, delay, schedule_reconnect, fire, connect_done, connect_failed, on_close,
  shut_down, Reach, boot, next, close_step, fire_step, failed_step, Reason, resolved, rejected,
  confirm_not_received, PublishEvent, confirmed, confirm_timeout, on_event, on_events, publish,
}
use geofence_location.Mq.Reconnecting.{links, links-eq-one, retries, outage-delay}
use geofence_location.Mq.Publishing.{publish-eq-resolved_iff}
use geofence_location.Ingest.{
  accepted, too_uncertain, mq_unavailable, event_of, published_of, accept,
}
use geofence_location.Ingest.Accepting.{IsCarried, accept-cases}
use geofence_location.Tests.Setting.{position}

unfoldable broker_runs : Unit {0}
unfolding whole is_too_uncertain delay schedule_reconnect fire connect_done connect_failed on_close
    shut_down on_event on_events publish event_of published_of accept
broker_runs = tt

-- the connection is lost, the first reconnect fails, the second succeeds
abbrev waiting_again : Publisher
waiting_again = connect_failed 0 (fire (on_close booted))

Reach-waiting_again : Reach waiting_again
unfolding broker_runs
Reach-waiting_again =
    next (next (next boot (close_step refl)) (fire_step 500 refl)) (failed_step 0 (omega arith))

links-eq-one_example : links waiting_again ≡ 1
unfolding broker_runs
links-eq-one_example = links-eq-one Reach-waiting_again refl

outage-delay_example :
    ((retries 3 (on_close booted)).timer ≡ some (min (500 * 2 ^ 3) 5000))
    × (500 ≤ delay 3)
    × (delay 3 ≤ 5000)
    × (delay 3 ≤ delay (3 + 1))
outage-delay_example = outage-delay 3 boot refl refl

fourth_delay : delay 3 ≡ 4000
unfolding broker_runs
fourth_delay = refl

-- A connect that is in flight at the shutdown and then fails arms the timer again.
rearmed : (connect_failed 0 (shut_down (fire (on_close booted)))).timer ≡ some 1000
unfolding broker_runs
rearmed = refl

abbrev took : Option String
took = none

publish-eq-resolved_iff_example :
    (publish booted took (confirmed ∷ confirm_timeout ∷ []) ≡ some resolved) ↔ (
      (booted.connected ≡ true)
      × (took ≡ none)
      × ((later : List PublishEvent) × (confirmed ∷ confirm_timeout ∷ [] ≡ confirmed ∷ later)))
publish-eq-resolved_iff_example =
    publish-eq-resolved_iff booted took (confirmed ∷ confirm_timeout ∷ [])

-- the confirm comes too late
late_confirm :
    publish booted none (confirm_timeout ∷ confirmed ∷ []) ≡ some (rejected confirm_not_received)
unfolding broker_runs
late_confirm = refl

position_cases :
    ((accept (λ _. resolved) 77 6 position ≡ (too_uncertain, []))
      × (is_too_uncertain position.accuracy ≡ true))
    ⊎ (IsCarried position 77 6 (published_of 77 6 position)
        × ((accept (λ _. resolved) 77 6 position).1 ≡ published_of 77 6 position ∷ [])
        × (((resolved ≡ resolved) × ((accept (λ _. resolved) 77 6 position).0 ≡ accepted 77))
            ⊎ ((reason : Reason) × (resolved ≡ rejected reason)
                × ((accept (λ _. resolved) 77 6 position).0 ≡ mq_unavailable reason))))
position_cases = accept-cases (λ _. resolved) 77 6 position

certain_accepted : (accept (λ _. resolved) 77 6 position).0 ≡ accepted 77
unfolding broker_runs
certain_accepted = refl
