-- ===== src/Worker/Processing.antt =====
-- What one delivery does to the tables, by the way in which it is settled.
use geofence_location.Prelude.{
  ℕ, ◌+◌, ◌≡◌, refl, ap, sym, subst, Bool, true, false, Option, none, some, List, [], ◌∷◌, ◌++◌,
  arith, IsDistinct, Bool-cases, inl, inr,
}
use geofence_location.Database.{Failure, Result, ok, err, Connection}
use geofence_location.Presence.{PresenceMemory}
use geofence_location.Service.{World, Surroundings}
use geofence_location.Locations.{LocationReportResponse, or_else}
use geofence_location.Locations.Report.{report}
use geofence_location.Locations.Coherence.{IsCoherent}
use geofence_location.Locations.Evaluation.{report-IsEvaluated}
use geofence_location.Locations.Failing.{report-IsUndone}
use geofence_location.Locations.Fresh.{report-duplicate}
use geofence_location.Locations.Transition.Commit.{IsTransition}
use geofence_location.Worker.{
  LocationEvent, ack, nack, Consumer, is_duplicate, report_of, is_stale_area_violation,
  catch_failure, conclude, after_dedup, process_event,
}

or_else-none : (o : Option ℕ) → or_else o none ≡ o
or_else-none none = refl
or_else-none (some a) = refl

-- The four ways to settle a delivery of `event`, where the covering areas are `current`.
pub data IsProcessed (s : Surroundings) (tag : ℕ) (event : LocationEvent) (current : List ℕ)
    (k k' : Consumer) : Type 0 where
  -- acknowledged as a duplicate: nothing but the memory of its seq is touched
  skipped :
      (is_duplicate s.connection event k).0 ≡ ok true
      → k'.settled ≡ k.settled ++ ack tag ∷ []
      → k'.world ≡ k.world
      → k'.processed_count ≡ k.processed_count
      → IsProcessed s tag event current k k'
  -- acknowledged after the transition to the covering areas, stamped with the time of acceptance
  applied :
      (out : List ℕ)
      → k'.settled ≡ k.settled ++ ack tag ∷ []
      → IsTransition s.connection event.user_id event.received_at event.captured_at current
          k.world.database out k'.world.database
      → k'.processed_count ≡ k.processed_count + 1
      → k'.stale_area_drop_count ≡ k.stale_area_drop_count
      → IsProcessed s tag event current k k'
  -- acknowledged and counted as dropped: an area of the event is gone
  dropped :
      (e : Failure)
      → is_stale_area_violation e ≡ true
      → k'.settled ≡ k.settled ++ ack tag ∷ []
      → k'.world.database ≡ k.world.database
      → k'.processed_count ≡ k.processed_count + 1
      → k'.stale_area_drop_count ≡ k.stale_area_drop_count + 1
      → IsProcessed s tag event current k k'
  -- put back on the queue, with nothing done
  retried :
      (e : Failure)
      → is_stale_area_violation e ≡ false
      → k'.settled ≡ k.settled ++ nack tag true ∷ []
      → k'.world.database ≡ k.world.database
      → k'.processed_count ≡ k.processed_count
      → k'.stale_area_drop_count ≡ k.stale_area_drop_count
      → IsProcessed s tag event current k k'

module _ (s : Surroundings) (tag : ℕ) (event : LocationEvent) (current : List ℕ) where
  catch_failure-IsProcessed :
      (e : Failure) (k k₁ : Consumer)
      → k₁.world.database ≡ k.world.database
      → k₁.settled ≡ k.settled
      → k₁.processed_count ≡ k.processed_count
      → k₁.stale_area_drop_count ≡ k.stale_area_drop_count
      → IsProcessed s tag event current k (catch_failure tag e k₁)
  unfolding catch_failure
  catch_failure-IsProcessed e k k₁ e₀ e₁ e₂ e₃ = elim (Bool-cases (is_stale_area_violation e)) [
    | inl stale ↦ dropped e stale (ground arith) (ground arith) (ground arith) (ground arith)
    | inr other ↦ retried e other (ground arith) (ground arith) (ground arith) (ground arith)
  ]

  -- `k₁` is `k` but for what is known of the seqs.
  pub record IsSameBut (k k₁ : Consumer) : Type 0 where
    pub world : k₁.world ≡ k.world
    pub settled : k₁.settled ≡ k.settled
    pub processed : k₁.processed_count ≡ k.processed_count
    pub drops : k₁.stale_area_drop_count ≡ k.stale_area_drop_count

  pub is_duplicate-IsSameBut :
      (c : Connection) (k : Consumer) → IsSameBut k (is_duplicate c event k).1
  unfolding is_duplicate
  is_duplicate-IsSameBut c k = ground arith

  module _ (k : Consumer) (memory : PresenceMemory) (worker : k.world.memory ≡ some memory)
      (h : IsCoherent k.world.memory k.world.database.presence)
      (covering : s.find_covering_area_ids event.lng event.lat ≡ ok current)
      (distinct : IsDistinct current) where
    applied_of_report :
        (k₁ : Consumer) (r : LocationReportResponse) (w : World)
        → IsSameBut k k₁
        → report s (report_of event) event.received_at k.world ≡ (ok r, w)
        → IsProcessed s tag event current k (conclude tag event k₁ (ok r, w))
    unfolding conclude
    applied_of_report k₁ r w same e =
        elim (report-IsEvaluated s (report_of event) event.received_at current k.world memory worker
          h covering distinct e).effect [
            | inl (dup, _, _) ↦
                cc (report-duplicate s (report_of event) event.received_at refl k.world e, dup)
            | inr (_, step) ↦
                applied r.entered_area_ids (ground arith)
                  (subst
                    (λ o.
                      IsTransition s.connection event.user_id event.received_at o current
                        k.world.database r.entered_area_ids w.database)
                    (or_else-none event.captured_at) step)
                  (ground arith) (ground arith)
          ]

    conclude-IsProcessed :
        (k₁ : Consumer) (r : Result LocationReportResponse) (w : World)
        → IsSameBut k k₁
        → report s (report_of event) event.received_at k.world ≡ (r, w)
        → IsProcessed s tag event current k (conclude tag event k₁ (r, w))
    unfolding conclude
    conclude-IsProcessed k₁ (ok r) w same e = applied_of_report k₁ r w same e
    conclude-IsProcessed k₁ (err x) w same e =
        catch_failure-IsProcessed x k (record k₁ { world = w })
          (report-IsUndone s (report_of event) event.received_at k.world h e).database same.settled
          same.processed same.drops

    after_dedup-IsProcessed :
        (k₁ : Consumer) (r : Result Bool)
        → IsSameBut k k₁
        → (is_duplicate s.connection event k).0 ≡ r
        → IsProcessed s tag event current k (after_dedup s tag event (r, k₁))
    unfolding after_dedup
    after_dedup-IsProcessed k₁ (ok true) same e =
        skipped e (ground arith) (ground arith) (ground arith)
    after_dedup-IsProcessed k₁ (ok false) same e =
        let (r, w) = report s (report_of event) event.received_at k₁.world in
        conclude-IsProcessed k₁ r w same
          (ap (λ v. report s (report_of event) event.received_at v) (sym same.world))
    after_dedup-IsProcessed k₁ (err x) same e =
        catch_failure-IsProcessed x k k₁ (ap (λ (w : World). w.database) same.world) same.settled
          same.processed same.drops

    -- In a worker whose memory agrees with the presence table, where the snapshot answers with
    -- distinct covering areas: a delivery is acknowledged as a duplicate with no table changed, or
    -- acknowledged after exactly the transition to the covering areas, or acknowledged and counted
    -- as a stale drop with no table changed, or put back on its queue with no table and no counter
    -- changed.
    pub process_event-IsProcessed : IsProcessed s tag event current k (process_event s tag event k)
    unfolding process_event
    process_event-IsProcessed =
        after_dedup-IsProcessed (is_duplicate s.connection event k).1
          (is_duplicate s.connection event k).0 (is_duplicate-IsSameBut s.connection k) refl
