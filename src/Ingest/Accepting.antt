-- ===== src/Ingest/Accepting.antt =====
-- src/locations/location-ingest.service.ts against the worker that reads its events.
use geofence_location.Prelude.{
  ℕ, ◌≡◌, ◌⊎◌, refl, ◌∙◌, ap, true, false, Option, none, some, [], ◌∷◌, arith, Bool-cases, inl, inr,
}
use geofence_location.Service.{Surroundings}
use geofence_location.Locations.{ReportLocationDto, is_too_uncertain, or_else}
use geofence_location.Worker.{Consumer, report_of, handle, handle_content, process_event}
use geofence_location.Mq.{Outcome, resolved, rejected, Reason}
use geofence_location.Ingest.{
  accepted, too_uncertain, mq_unavailable, Published, event_of, published_of, answer_of, accept,
}

-- What a worker makes of the event that carries the position.
pub record IsCarried (dto : ReportLocationDto) (event_id now : ℕ) (published : Published)
    : Type 0 where
  pub routing : published.routing_key ≡ dto.user_id
  pub event_id_kept : published.event.event_id ≡ event_id
  pub time : published.event.received_at ≡ now
  pub device : (published.event.device_id ≡ dto.device_id) × (published.event.seq ≡ dto.seq)
  pub position :
      ((report_of published.event).lat ≡ dto.lat) × ((report_of published.event).lng ≡ dto.lng)
  pub captured :
      or_else (report_of published.event).captured_at (report_of published.event).observed_at
      ≡ or_else dto.captured_at dto.observed_at
  pub passes_gate : is_too_uncertain (report_of published.event).accuracy ≡ false
  pub handled :
      (s : Surroundings) (tag : ℕ) (k : Consumer)
      → handle s
          (record { delivery_tag = tag; content = some (published.version, published.event) })
          k
        ≡ process_event s tag published.event k

module _ (publish : Published → Outcome) (event_id now : ℕ) (dto : ReportLocationDto) where
  IsCarried-published_of :
      is_too_uncertain dto.accuracy ≡ false
      → IsCarried dto event_id now (published_of event_id now dto)
  unfolding published_of event_of handle handle_content
  IsCarried-published_of certain = record {
    routing = refl;
    event_id_kept = refl;
    time = refl;
    device = (refl, refl);
    position = (refl, refl);
    captured = captured_once dto.captured_at dto.observed_at;
    passes_gate = certain;
    handled = λ s tag k. refl;
  }
    where
      captured_once : (a b : Option ℕ) → or_else (or_else a b) none ≡ or_else a b
      captured_once none none = refl
      captured_once none (some n) = refl
      captured_once (some n) b = refl

  accept-eq :
      is_too_uncertain dto.accuracy ≡ false
      → accept publish event_id now dto ≡ (
        answer_of event_id (publish (published_of event_id now dto)),
        published_of event_id now dto ∷ [],
      )
  unfolding accept
  accept-eq certain = ground arith

  answer-cases :
      (outcome : Outcome)
      → ((outcome ≡ resolved) × (answer_of event_id outcome ≡ accepted event_id))
        ⊎ ((reason : Reason) × (outcome ≡ rejected reason)
            × (answer_of event_id outcome ≡ mq_unavailable reason))
  answer-cases resolved = inl (refl, refl)
  answer-cases (rejected reason) = inr (reason, refl, refl)

-- `accept` publishes once or not at all. A reading that is too uncertain publishes nothing. Any other
-- publishes one event under its user's id, with the client's data and the time of acceptance: the
-- worker takes it for an event of its version, reads the same device time from it, and does not
-- reject it by the same gate. Its id is returned exactly if the publish resolved.
pub accept-cases :
    (publish : Published → Outcome) (event_id now : ℕ) (dto : ReportLocationDto)
    → ((accept publish event_id now dto ≡ (too_uncertain, []))
        × (is_too_uncertain dto.accuracy ≡ true))
      ⊎ (IsCarried dto event_id now (published_of event_id now dto)
          × ((accept publish event_id now dto).1 ≡ published_of event_id now dto ∷ [])
          × (((publish (published_of event_id now dto) ≡ resolved)
                × ((accept publish event_id now dto).0 ≡ accepted event_id))
              ⊎ ((reason : Reason) × (publish (published_of event_id now dto) ≡ rejected reason)
                  × ((accept publish event_id now dto).0 ≡ mq_unavailable reason))))
unfolding accept
accept-cases publish event_id now dto = elim (Bool-cases (is_too_uncertain dto.accuracy)) [
  | inl uncertain ↦ inl (ground arith, uncertain)
  | inr certain ↦
      let both = accept-eq publish event_id now dto certain in
      inr (
        IsCarried-published_of publish event_id now dto certain,
        ap (λ x. x.1) both,
        elim (answer-cases publish event_id now dto (publish (published_of event_id now dto))) [
          | inl (was, is) ↦ inl (was, ap (λ x. x.0) both ∙ is)
          | inr (reason, was, is) ↦ inr (reason, was, ap (λ x. x.0) both ∙ is)
        ],
      )
]
