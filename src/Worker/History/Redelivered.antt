-- ===== src/Worker/History/Redelivered.antt =====
-- Redeliveries to a worker of src/worker/worker-consumer.service.ts after any sequence of others.
use geofence_location.Prelude.{
  ℕ, ◌≤◌, ◌<◌, ◌≡◌, ◌∙◌, inl, inr, String, false, List, [], ◌∷◌, arith, lookup, Option-cases,
}
use geofence_location.Database.{ok}
use geofence_location.Service.{World, Surroundings}
use geofence_location.Locations.{LocationReportResponse}
use geofence_location.Locations.Report.{report}
use geofence_location.Worker.{
  LocationEvent, ack, Consumer, settle, is_duplicate, report_of, process_event,
}
use geofence_location.Worker.Dedup.{
  IsOf, IsKnown, process_event_of_duplicate, is_duplicate_of_IsKnown, IsFresh-of_not_duplicate,
  process_event-IsKnown,
}
use geofence_location.Worker.Watermark.{watermark, handle-grows}
use geofence_location.Worker.History.{Delivery, after, handle_each}
use geofence_location.Worker.History.Growing.{IsGrown-process_event, handle_each-IsGrown}

watermark-grows :
    (key : String) (ds : List Delivery) (k : Consumer)
    → watermark key k ≤ watermark key (handle_each ds k)
unfolding handle_each
watermark-grows key [] k = omega arith
watermark-grows key (d ∷ ds) k =
    omega (arith, handle-grows key d.surroundings d.message k, watermark-grows key ds (after d k))

IsKnown-of_watermark :
    (key : String) (seq : ℕ) (k : Consumer)
    → 0 < seq
    → seq ≤ watermark key k
    → IsKnown key seq k.last_seq_by_device
IsKnown-of_watermark key seq k positive h = elim (Option-cases (lookup key k.last_seq_by_device)) [
  | inl unknown ↦ ground (arith, unknown)
  | inr (last_seq, known) ↦ record {
    last_seq = last_seq;
    found = known;
    reaches = ground (arith, known, h);
  }
]

-- After an event that passed the dedup gate and whose report returned, and after any deliveries that
-- followed it, whatever they held and whatever failed: a delivery of the same device key with the
-- same or a smaller seq is acknowledged and changes nothing else. The worker knows this from its
-- memory alone: through all this `user_event_state` is as it was.
pub redelivered_later :
    (s s' : Surroundings) (tag tag' : ℕ) (event event' : LocationEvent) (k k₁ : Consumer)
    (key : String) (seq seq' : ℕ) (r : LocationReportResponse) (w : World) (ds : List Delivery)
    → IsOf key seq event
    → IsOf key seq' event'
    → seq' ≤ seq
    → is_duplicate s.connection event k ≡ (ok false, k₁)
    → report s (report_of event) event.received_at k₁.world ≡ (ok r, w)
    → (process_event s' tag' event' (handle_each ds (process_event s tag event k))
        ≡ settle (ack tag') (handle_each ds (process_event s tag event k)))
      × ((handle_each ds (process_event s tag event k)).world.database.event_state
          ≡ k.world.database.event_state)
redelivered_later s s' tag tag' event event' k k₁ key seq seq' r w ds h h' older gate reported =
    let once = process_event s tag event k in
    let fresh = IsFresh-of_not_duplicate s.connection event k k₁ key seq h gate in
    let first = process_event-IsKnown s tag event k k₁ key seq r w h gate reported in
    let reached : seq ≤ watermark key once = ground (arith, first.found, first.reaches) in
    let known =
      IsKnown-of_watermark key seq (handle_each ds once) (omega (arith, fresh.older))
        (omega (arith, reached, watermark-grows key ds once)) in
    (
      process_event_of_duplicate s' tag' event' (handle_each ds once) (handle_each ds once) (
          is_duplicate_of_IsKnown s'.connection event' (handle_each ds once) key seq' h' (record {
            last_seq = known.last_seq;
            found = known.found;
            reaches = omega (arith, known.reaches, older);
          })),
      (handle_each-IsGrown ds once).states ∙ (IsGrown-process_event s tag event k).states,
    )
