-- ===== src/Worker/Keeping.antt =====
-- What a worker of src/worker/worker-consumer.service.ts keeps over a delivery: the world changes by
-- a report, or not at all.
use geofence_location.Prelude.{
  ℕ, ◌≡◌, refl, sym, subst, ◌∙◌, ap, ◌⊎◌, Bool, true, false, Option, none, some, inl, inr, arith,
  eqb, if◌then◌else◌,
}
use geofence_location.Database.{Database, Connection, Result, ok, err}
use geofence_location.Presence.{PresenceMemory}
use geofence_location.Service.{World, Surroundings}
use geofence_location.Locations.{LocationReportResponse}
use geofence_location.Locations.Report.{report}
use geofence_location.Locations.Keeping.{IsKept, report-keeps}
use geofence_location.Worker.{
  LocationEvent, Message, Consumer, nack, settle, is_duplicate, report_of, catch_failure, conclude,
  after_dedup, process_event, handle_content, handle, location_event_schema_version,
}

is_duplicate-world :
    (c : Connection) (event : LocationEvent) (k : Consumer)
    → (is_duplicate c event k).1.world ≡ k.world
unfolding is_duplicate
is_duplicate-world c event k = ground arith

module _ (s : Surroundings) (tag : ℕ) (event : LocationEvent) where
  conclude-world :
      (k : Consumer) (r : Result LocationReportResponse) (w : World)
      → (conclude tag event k (r, w)).world ≡ w
  unfolding conclude catch_failure settle
  conclude-world k (ok r) w = refl
  conclude-world k (err x) w = ground arith

  after_dedup-world :
      (r : Result Bool) (k : Consumer)
      → ((after_dedup s tag event (r, k)).world ≡ k.world)
        ⊎ ((after_dedup s tag event (r, k)).world
            ≡ (report s (report_of event) event.received_at k.world).1)
  unfolding after_dedup catch_failure settle
  after_dedup-world (ok true) k = inl refl
  after_dedup-world (ok false) k =
      let (r, w) = report s (report_of event) event.received_at k.world in
      inr (conclude-world k r w)
  after_dedup-world (err x) k = inl (ground arith)

  -- the world of a worker after an event
  pub process_event-world :
      (k : Consumer)
      → ((process_event s tag event k).world ≡ k.world)
        ⊎ ((process_event s tag event k).world
            ≡ (report s (report_of event) event.received_at k.world).1)
  unfolding process_event
  process_event-world k =
      let (r, k₁) = is_duplicate s.connection event k in
      let same = is_duplicate-world s.connection event k in
      elim (after_dedup-world r k₁) [
        | inl kept ↦ inl (kept ∙ same)
        | inr ran ↦ inr (ran ∙ ap (λ w. (report s (report_of event) event.received_at w).1) same)
      ]

module _ (P : Database → Option PresenceMemory → Type 0) (keep : IsKept P) (s : Surroundings) where
  abbrev Holds : Consumer → Type 0
  Holds k = P k.world.database k.world.memory

  Holds-of_world : (k : Consumer) (w : World) → k.world ≡ w → P w.database w.memory → Holds k
  Holds-of_world k w e h = subst (λ (v : World). P v.database v.memory) (sym e) h

  pub process_event-keeps :
      (tag : ℕ) (event : LocationEvent) (k : Consumer)
      → Holds k
      → Holds (process_event s tag event k)
  process_event-keeps tag event k h = elim (process_event-world s tag event k) [
    | inl same ↦ Holds-of_world (process_event s tag event k) k.world same h
    | inr ran ↦
        Holds-of_world (process_event s tag event k)
          (report s (report_of event) event.received_at k.world).1 ran
          (report-keeps P keep s (report_of event) event.received_at refl k.world h)
  ]

  handle_content-keeps :
      (tag : ℕ) (content : Option (ℕ × LocationEvent)) (k : Consumer)
      → Holds k
      → Holds (handle_content s tag content k)
  unfolding handle_content settle
  handle_content-keeps tag none k h = h
  handle_content-keeps tag (some (version, event)) k h =
      by_version (eqb version location_event_schema_version)
    where
      by_version :
          (known : Bool)
          → Holds (if known then process_event s tag event k else settle (nack tag true) k)
      by_version true = process_event-keeps tag event k h
      by_version false = h

  -- a delivery keeps what is kept by all that a report does
  pub handle-keeps : (message : Message) (k : Consumer) → Holds k → Holds (handle s message k)
  unfolding handle
  handle-keeps message k h = handle_content-keeps message.delivery_tag message.content k h
