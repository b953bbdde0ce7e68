-- ===== src/Worker/History/Steps.antt =====
-- One delivery to a worker of src/worker/worker-consumer.service.ts, and the rows of one user.
use geofence_location.Prelude.{
  ℕ, ◌+◌, ◌≡◌, refl, sym, ap, subst, ◌∙◌, String, true, false, ◌&&◌, Option, none, some, List, map,
  arith, contains, IsDistinct, ◌==◌, eq_iff, Bool-cases, inl, inr, if◌then◌else◌,
}
use geofence_location.Database.{Database, Result, ok, err, log_row, is_present}
use geofence_location.Presence.{PresenceMemory}
use geofence_location.Service.{World, Surroundings}
use geofence_location.Locations.{LocationReportResponse}
use geofence_location.Locations.Report.{report}
use geofence_location.Locations.Coherence.{IsCoherent, IsPresenceOf}
use geofence_location.Locations.Evaluation.{report-IsEvaluated}
use geofence_location.Locations.Keeping.{report-keeps}
use geofence_location.Worker.Keeping.{process_event-world}
use geofence_location.Locations.Failing.{report-IsUndone}
use geofence_location.Locations.Transition.Commit.{IsTransition}
use geofence_location.Worker.{LocationEvent, Consumer, report_of, process_event}
use geofence_location.Worker.Processing.{IsProcessed, skipped, applied, dropped, retried}
use geofence_location.Worker.History.{is_evaluated, now_in, is_entry, log_count}
use geofence_location.Worker.History.Counting.{
  has_memory, has_memory-IsKept, log_count-append, log_count-map,
}

-- a worker whose memory agrees with the presence table
pub record IsWorker (k : Consumer) : Type 0 where
  pub remembers : has_memory k.world.memory ≡ true
  pub coherent : IsCoherent k.world.memory k.world.database.presence

pub memory_of :
    (memory : Option PresenceMemory)
    → has_memory memory ≡ true
    → (m : PresenceMemory) × (memory ≡ some m)
memory_of none e = cc
memory_of (some m) e = (m, refl)

module _ (s : Surroundings) (event : LocationEvent) (current : List ℕ)
    (covers : s.find_covering_area_ids event.lng event.lat ≡ ok current)
    (distinct : IsDistinct current) where
  report-IsCoherent :
      (w : World) (r : Result LocationReportResponse) (w' : World)
      → has_memory w.memory ≡ true
      → IsCoherent w.memory w.database.presence
      → report s (report_of event) event.received_at w ≡ (r, w')
      → IsCoherent w'.memory w'.database.presence
  report-IsCoherent w (ok r) w' m h e =
      let (memory, there) = memory_of w.memory m in
      (report-IsEvaluated s (report_of event) event.received_at current w memory there h covers
        distinct e).coherent
  report-IsCoherent w (err x) w' m h e =
      (report-IsUndone s (report_of event) event.received_at w h e).coherent

  module _ (tag : ℕ) where
    pub IsWorker-of_world : (k k' : Consumer) → IsWorker k → k'.world ≡ k.world → IsWorker k'
    IsWorker-of_world k k' h e = record {
      remembers = ap (λ (w : World). has_memory w.memory) e ∙ h.remembers;
      coherent = subst (λ (w : World). IsCoherent w.memory w.database.presence) (sym e) h.coherent;
    }

    pub process_event-IsWorker :
        (k : Consumer) → IsWorker k → IsWorker (process_event s tag event k)
    process_event-IsWorker k h = elim (process_event-world s tag event k) [
      | inl kept ↦ IsWorker-of_world k (process_event s tag event k) h kept
      | inr ran ↦
          let (answer, w) = report s (report_of event) event.received_at k.world in
          let memory =
            report-keeps (λ db memory. has_memory memory ≡ true) has_memory-IsKept s
              (report_of event) event.received_at refl k.world h.remembers in
          let agrees = report-IsCoherent k.world answer w h.remembers h.coherent refl in
          record {
            remembers = ap (λ (v : World). has_memory v.memory) ran ∙ memory;
            coherent =
                subst (λ (v : World). IsCoherent v.memory v.database.presence) (sym ran) agrees;
          }
    ]

-- What a delivery makes of one user's rows, where it finds the user in `f`.
pub record IsStep (u : String) (f : Option (List ℕ)) (db db' : Database) : Type 0 where
  pub presence :
      (before : List ℕ)
      → IsPresenceOf u db.presence before
      → IsPresenceOf u db'.presence (now_in before f)
  pub logs :
      (area : ℕ) (before : List ℕ)
      → IsPresenceOf u db.presence before
      → log_count u area db'.logs ≡ log_count u area db.logs + is_entry area before f

pub IsStep-unchanged : (u : String) (db db' : Database) → db' ≡ db → IsStep u none db db'
IsStep-unchanged u db db' e =
    subst (IsStep u none db) (sym e)
      (record { presence = λ before h. h; logs = λ area before h. omega arith })

module _ (s : Surroundings) (v u : String) (t : ℕ) (captured : Option ℕ) (current : List ℕ)
    (db : Database) (out : List ℕ) (db' : Database)
    (h : IsTransition s.connection v t captured current db out db') where
  log_count-transition :
      (area : ℕ)
      → log_count u area db'.logs
        ≡ log_count u area db.logs + (if v == u && contains out area then 1 else 0)
  log_count-transition area =
      ap (log_count u area) h.logs
      ∙ log_count-append u area db.logs (map (log_row s.connection v t captured) out)
      ∙ ap (λ n. log_count u area db.logs + n)
          (log_count-map s.connection v u t captured area out h.distinct)

  IsStep-other : v == u ≡ false → IsStep u none db db'
  IsStep-other other = record {
    presence = λ before truth b. ground (arith, truth b, h.presence u b);
    logs = λ area before truth. ground (arith, log_count-transition area);
  }

  IsStep-own : v == u ≡ true → IsStep u (some current) db db'
  IsStep-own own =
      let same : v ≡ u = (eq_iff v u).0 own in
      record {
        presence = λ before truth b. ground (arith, h.presence u b);
        logs = λ area before truth.
            let fresh : is_present v area db.presence ≡ contains before area =
              ap (λ x. is_present x area db.presence) same ∙ sym (truth area) in
            ground (arith, log_count-transition area, h.entered area, fresh);
      }

-- a delivery of an event, by the way in which it was settled
module _ (s : Surroundings) (tag : ℕ) (event : LocationEvent) (current : List ℕ) (u : String) where
  abbrev pub found_in : Consumer → Consumer → Option (List ℕ)
  found_in k k' = if event.user_id == u && is_evaluated k k' then some current else none

  pub IsStep-idle :
      (k k' : Consumer)
      → is_evaluated k k' ≡ false
      → k'.world.database ≡ k.world.database
      → IsStep u (found_in k k') k.world.database k'.world.database
  IsStep-idle k k' idle same =
      let none_found : found_in k k' ≡ none = ground (arith, idle) in
      subst (λ f. IsStep u f k.world.database k'.world.database) (sym none_found)
        (IsStep-unchanged u k.world.database k'.world.database same)

  pub IsProcessed-IsStep :
      (k k' : Consumer)
      → IsProcessed s tag event current k k'
      → IsStep u (found_in k k') k.world.database k'.world.database
  IsProcessed-IsStep k k' (skipped dup settled world count) =
      IsStep-idle k k' (ground (arith, count)) (ap (λ (w : World). w.database) world)
  IsProcessed-IsStep k k' (dropped e stale settled database count drops) =
      IsStep-idle k k' (ground (arith, count, drops)) database
  IsProcessed-IsStep k k' (retried e other settled database count drops) =
      IsStep-idle k k' (ground (arith, count)) database
  IsProcessed-IsStep k k' (applied out settled step count drops) =
      elim (Bool-cases (event.user_id == u)) [
        | inl own ↦
            let here : found_in k k' ≡ some current = ground (arith, own, count, drops) in
            subst (λ f. IsStep u f k.world.database k'.world.database) (sym here)
              (IsStep-own s event.user_id u event.received_at event.captured_at current
                k.world.database out k'.world.database step own)
        | inr other ↦
            let elsewhere : found_in k k' ≡ none = ground (arith, other) in
            subst (λ f. IsStep u f k.world.database k'.world.database) (sym elsewhere)
              (IsStep-other s event.user_id u event.received_at event.captured_at current
                k.world.database out k'.world.database step other)
      ]
