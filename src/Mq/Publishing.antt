-- ===== src/Mq/Publishing.antt =====
-- `publish` of src/mq/mq-publisher.service.ts.
use geofence_location.Prelude.{
  ◌≡◌, ◌≢◌, ◌↔◌, refl, String, true, Option, none, some, List, [], ◌∷◌, ◌++◌, arith, Bool-cases,
  inl, inr,
}
use geofence_location.Mq.{
  Publisher, PublishEvent, confirmed, nacked, confirm_timeout, Outcome, Reason, broker_rejected,
  confirm_not_received, resolved, rejected, Publish, on_event, on_events, publish,
}

-- a settled promise stays as it is
on_events-settled :
    (events : List PublishEvent) (q : Publish) (outcome : Outcome)
    → q.promise ≡ some outcome
    → (on_events events q).promise ≡ some outcome
unfolding on_events on_event
on_events-settled [] q outcome e = e
on_events-settled (confirmed ∷ events) q outcome e =
    on_events-settled events _ outcome (ground arith)
on_events-settled (nacked ∷ events) q outcome e = on_events-settled events _ outcome (ground arith)
on_events-settled (confirm_timeout ∷ events) q outcome e =
    on_events-settled events _ outcome (ground arith)

on_events-append :
    (events more : List PublishEvent) (q : Publish)
    → on_events (events ++ more) q ≡ on_events more (on_events events q)
unfolding on_events
on_events-append [] more q = refl
on_events-append (event ∷ events) more q = on_events-append events more (on_event event q)

not_resolved :
    (events : List PublishEvent) (q : Publish) (reason : Reason)
    → q.promise ≡ some (rejected reason)
    → (on_events events q).promise ≢ some resolved
not_resolved events q reason e h = cc (on_events-settled events q (rejected reason) e, h)

-- the events after which the promise of a message that was taken is resolved
resolved-events :
    (events : List PublishEvent)
    → ((on_events events (record { promise = none; timer_armed = true })).promise ≡ some resolved)
      ↔ ((later : List PublishEvent) × (events ≡ confirmed ∷ later))
unfolding on_events on_event
resolved-events [] = (λ e. absurd (ground arith), λ h. cc h.1)
resolved-events (confirmed ∷ later) =
    (λ e. (later, refl), λ h. on_events-settled later _ resolved refl)
resolved-events (nacked ∷ later) =
    (λ e. absurd (not_resolved later _ broker_rejected refl e), λ h. absurd (ground (arith, h.1)))
resolved-events (confirm_timeout ∷ later) = (
  λ e. absurd (not_resolved later _ confirm_not_received refl e),
  λ h. absurd (ground (arith, h.1)),
)

-- A publish resolves exactly when the publisher is connected, the channel took the message, and the
-- first that came of it was the broker's confirm: not a nack, and not the end of the 5 seconds.
pub publish-eq-resolved_iff :
    (p : Publisher) (threw : Option String) (events : List PublishEvent)
    → (publish p threw events ≡ some resolved) ↔ (
        (p.connected ≡ true)
        × (threw ≡ none)
        × ((later : List PublishEvent) × (events ≡ confirmed ∷ later)))
unfolding publish
publish-eq-resolved_iff p threw events = (to threw, λ h. from threw h.0 h.1 h.2)
  where
    to :
        (threw : Option String)
        → publish p threw events ≡ some resolved
        → (p.connected ≡ true)
          × (threw ≡ none)
          × ((later : List PublishEvent) × (events ≡ confirmed ∷ later))
    to none e = (ground arith, refl, (resolved-events events).0 (ground arith))
    to (some message) e = absurd (ground arith)

    from :
        (threw : Option String)
        → p.connected ≡ true
        → threw ≡ none
        → (later : List PublishEvent) × (events ≡ confirmed ∷ later)
        → publish p threw events ≡ some resolved
    from none up took first = ground (arith, (resolved-events events).1 first)
    from (some message) up took first = cc

-- Once a publish has ended, nothing that comes later changes how.
pub publish-settled_once :
    (p : Publisher) (threw : Option String) (events later : List PublishEvent) (outcome : Outcome)
    → publish p threw events ≡ some outcome
    → publish p threw (events ++ later) ≡ some outcome
unfolding publish
publish-settled_once p (some message) events later outcome e = e
publish-settled_once p none events later outcome e = elim (Bool-cases p.connected) [
  | inl up ↦
      let start : Publish = record { promise = none; timer_armed = true } in
      let ended : (on_events events start).promise ≡ some outcome = ground arith in
      ground (
        arith,
        on_events-append events later start,
        on_events-settled later (on_events events start) outcome ended,
      )
  | inr down ↦ ground arith
]
