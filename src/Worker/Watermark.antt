-- ===== src/Worker/Watermark.antt =====
-- `lastSeqByDevice` of src/worker/worker-consumer.service.ts only grows.
use geofence_location.Prelude.{
  ℕ, ◌≤◌, ◌≡◌, inl, inr, String, Bool, true, false, Option, none, some, arith, eq_iff, Dict, lookup,
  insert, lookup-insert, ltb, eqb, Option-cases, Bool-cases,
}
use geofence_location.Database.{Connection, Result, ok, err, find_state}
use geofence_location.Service.{World, Surroundings}
use geofence_location.Locations.{LocationReportResponse}
use geofence_location.Locations.Report.{report}
use geofence_location.Worker.{
  LocationEvent, Message, Consumer, settle, device_key, last_seq_or_zero, load_last_seq,
  is_duplicate, remember_at, remember_seq, report_of, catch_failure, conclude, after_dedup,
  process_event, handle_content, handle, location_event_schema_version,
}

-- the seq up to which a delivery of the key is taken for a duplicate, by what is in the memory
abbrev pub watermark : String → Consumer → ℕ
watermark key k = last_seq_or_zero (lookup key k.last_seq_by_device)

insert-grows :
    (key asked : String) (seq : ℕ) (known : Dict ℕ)
    → last_seq_or_zero (lookup key known) ≤ seq
    → last_seq_or_zero (lookup asked known) ≤ last_seq_or_zero (lookup asked (insert key seq known))
insert-grows key asked seq known h =
    ground (arith, h, lookup-insert key asked seq known, eq_iff key asked, eq_iff asked key)

module _ (asked : String) where
  load_last_seq-grows :
      (c : Connection) (user_id device_id : String) (seq : ℕ) (k : Consumer)
      → lookup (device_key user_id device_id) k.last_seq_by_device ≡ none
      → watermark asked k ≤ watermark asked (load_last_seq c user_id device_id seq k).1
  unfolding load_last_seq
  load_last_seq-grows c user_id device_id seq k new =
      let stored = last_seq_or_zero (find_state user_id device_id k.world.database.event_state) in
      let step =
        insert-grows (device_key user_id device_id) asked stored k.last_seq_by_device
          (ground (arith, new)) in
      ground (arith, step)

  is_duplicate-grows :
      (c : Connection) (event : LocationEvent) (k : Consumer)
      → watermark asked k ≤ watermark asked (is_duplicate c event k).1
  unfolding is_duplicate
  is_duplicate-grows c event k = elim (Option-cases event.device_id) [
    | inl legacy ↦ ground (arith, legacy)
    | inr (d, device) ↦ elim (Option-cases event.seq) [
      | inl legacy ↦ ground (arith, device, legacy)
      | inr (n, seq) ↦
          elim (Option-cases (lookup (device_key event.user_id d) k.last_seq_by_device)) [
            | inl new ↦
                ground (arith, device, seq, load_last_seq-grows c event.user_id d n k new, new)
            | inr (last_seq, known) ↦ ground (arith, device, seq, known)
          ]
    ]
  ]

  remember_seq-grows :
      (event : LocationEvent) (known : Dict ℕ)
      → last_seq_or_zero (lookup asked known)
        ≤ last_seq_or_zero (lookup asked (remember_seq event known))
  unfolding remember_seq remember_at
  remember_seq-grows event known = elim (Option-cases event.device_id) [
    | inl legacy ↦ ground (arith, legacy)
    | inr (d, device) ↦ elim (Option-cases event.seq) [
      | inl legacy ↦ ground (arith, device, legacy)
      | inr (n, seq) ↦
          let key = device_key event.user_id d in
          elim (Bool-cases (ltb (last_seq_or_zero (lookup key known)) n)) [
            | inl larger ↦
                let step = insert-grows key asked n known (ground arith) in
                ground (arith, device, seq, larger, step)
            | inr old ↦ ground (arith, device, seq, old)
          ]
    ]
  ]

  conclude-grows :
      (tag : ℕ) (event : LocationEvent) (k : Consumer) (r : Result LocationReportResponse)
      (w : World)
      → watermark asked k ≤ watermark asked (conclude tag event k (r, w))
  unfolding conclude catch_failure settle
  conclude-grows tag event k (ok r) w = remember_seq-grows event k.last_seq_by_device
  conclude-grows tag event k (err e) w = ground arith

  after_dedup-grows :
      (s : Surroundings) (tag : ℕ) (event : LocationEvent) (r : Result Bool) (k : Consumer)
      → watermark asked k ≤ watermark asked (after_dedup s tag event (r, k))
  unfolding after_dedup catch_failure settle
  after_dedup-grows s tag event (ok true) k = omega arith
  after_dedup-grows s tag event (ok false) k =
      let (r, w) = report s (report_of event) event.received_at k.world in
      conclude-grows tag event k r w
  after_dedup-grows s tag event (err e) k = ground arith

  process_event-grows :
      (s : Surroundings) (tag : ℕ) (event : LocationEvent) (k : Consumer)
      → watermark asked k ≤ watermark asked (process_event s tag event k)
  unfolding process_event
  process_event-grows s tag event k =
      let (r, k₁) = is_duplicate s.connection event k in
      omega (arith, is_duplicate-grows s.connection event k, after_dedup-grows s tag event r k₁)

  -- whatever is delivered, and whatever fails
  pub handle-grows :
      (s : Surroundings) (message : Message) (k : Consumer)
      → watermark asked k ≤ watermark asked (handle s message k)
  unfolding handle handle_content settle
  handle-grows s message k = by_content message.content
    where
      by_content :
          (content : Option (ℕ × LocationEvent))
          → watermark asked k ≤ watermark asked (handle_content s message.delivery_tag content k)
      by_content none = omega arith
      by_content (some (version, event)) =
          elim (Bool-cases (eqb version location_event_schema_version)) [
            | inl known ↦ rw known (process_event-grows s message.delivery_tag event k)
            | inr other ↦ ground (arith, other)
          ]
