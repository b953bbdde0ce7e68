-- ===== src/Worker/Settling.antt =====
-- How src/worker/worker-consumer.service.ts settles a delivery.
use geofence_location.Prelude.{
  ℕ, ◌≡◌, refl, subst, Bool, true, false, Option, none, some, List, [], ◌∷◌, ◌++◌, arith, inl, inr,
  ◌⊎◌,
}
use geofence_location.Database.{Failure, Result, ok, err, Connection}
use geofence_location.Service.{World, Surroundings}
use geofence_location.Locations.{LocationReportResponse}
use geofence_location.Locations.Report.{report}
use geofence_location.Worker.{
  report_of, handle_content, LocationEvent, Message, Settlement, ack, nack, Consumer, is_duplicate,
  catch_failure, conclude, after_dedup, process_event, handle,
}

-- One more delivery is settled than `before`, by its tag: acknowledged, or put back on its queue.
abbrev pub IsSettledOnce : ℕ → List Settlement → List Settlement → Type 0
IsSettledOnce tag before after =
    (after ≡ before ++ ack tag ∷ []) ⊎ (after ≡ before ++ nack tag true ∷ [])

catch_failure-IsSettledOnce :
    (tag : ℕ) (e : Failure) (k : Consumer)
    → IsSettledOnce tag k.settled (catch_failure tag e k).settled
unfolding catch_failure
catch_failure-IsSettledOnce tag e k = ground arith

conclude-IsSettledOnce :
    (tag : ℕ) (event : LocationEvent) (k : Consumer) (r : Result LocationReportResponse) (w : World)
    → IsSettledOnce tag k.settled (conclude tag event k (r, w)).settled
unfolding conclude
conclude-IsSettledOnce tag event k (ok r) w = inl refl
conclude-IsSettledOnce tag event k (err e) w =
    catch_failure-IsSettledOnce tag e (record k { world = w })

after_dedup-IsSettledOnce :
    (s : Surroundings) (tag : ℕ) (event : LocationEvent) (r : Result Bool) (k : Consumer)
    → IsSettledOnce tag k.settled (after_dedup s tag event (r, k)).settled
unfolding after_dedup
after_dedup-IsSettledOnce s tag event (ok true) k = inl refl
after_dedup-IsSettledOnce s tag event (ok false) k =
    let (r, w) = report s (report_of event) event.received_at k.world in
    conclude-IsSettledOnce tag event k r w
after_dedup-IsSettledOnce s tag event (err e) k = catch_failure-IsSettledOnce tag e k

settled-is_duplicate :
    (c : Connection) (event : LocationEvent) (k : Consumer)
    → (is_duplicate c event k).1.settled ≡ k.settled
unfolding is_duplicate
settled-is_duplicate c event k = ground arith

process_event-IsSettledOnce :
    (s : Surroundings) (tag : ℕ) (event : LocationEvent) (k : Consumer)
    → IsSettledOnce tag k.settled (process_event s tag event k).settled
unfolding process_event
process_event-IsSettledOnce s tag event k =
    subst (λ l. IsSettledOnce tag l (process_event s tag event k).settled)
      (settled-is_duplicate s.connection event k)
      (after_dedup-IsSettledOnce s tag event (is_duplicate s.connection event k).0
        (is_duplicate s.connection event k).1)

handle_content-IsSettledOnce :
    (s : Surroundings) (tag : ℕ) (content : Option (ℕ × LocationEvent)) (k : Consumer)
    → IsSettledOnce tag k.settled (handle_content s tag content k).settled
unfolding handle_content
handle_content-IsSettledOnce s tag none k = inr refl
handle_content-IsSettledOnce s tag (some (version, event)) k =
    ground (arith, process_event-IsSettledOnce s tag event k)

-- Whatever a delivery holds, and whatever fails while it is handled, handling it settles exactly
-- one delivery, its own: by an ack, or by a nack that puts it back on its queue.
pub handle-IsSettledOnce :
    (s : Surroundings) (message : Message) (k : Consumer)
    → IsSettledOnce message.delivery_tag k.settled (handle s message k).settled
unfolding handle
handle-IsSettledOnce s message k =
    handle_content-IsSettledOnce s message.delivery_tag message.content k
