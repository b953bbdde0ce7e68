-- ===== src/Locations/Keeping.antt =====
-- What `report` of src/locations/locations.service.ts keeps, whatever it meets.
use geofence_location.Prelude.{
  ℕ, ◌≡◌, refl, sym, subst, String, Bool, true, false, Option, none, List, Bool-cases, inl, inr,
  if◌then◌else◌,
}
use geofence_location.Database.{Database, Result, ok, err, area_ids_of, transaction}
use geofence_location.Presence.{PresenceMemory}
use geofence_location.Service.{World, Surroundings, remember_in, continue, ◌>>=◌}
use geofence_location.Service.Laws.{>>=-eq-ok}
use geofence_location.Locations.{
  ReportLocationDto, LocationReportResponse, is_too_uncertain, or_else, differs,
}
use geofence_location.Locations.Evaluation.{after_commit-eq, acknowledge-eq, run_transaction-eq-ok}
use geofence_location.Locations.Failing.{previous_hint-eq, evaluate-eq-err}
use geofence_location.Locations.Transition.{Outcome, transition}
use geofence_location.Locations.Report.{
  Hint, previous_hint, evaluate, report, after_commit, run_transaction,
}

-- A property of the tables and the memory that survives what is remembered, and what is committed
-- for a report without a device.
pub record IsKept (P : Database → Option PresenceMemory → Type 0) : Type 0 where
  pub remembered :
      (u : String) (areas : List ℕ) (db : Database) (memory : Option PresenceMemory)
      → P db memory
      → P db (remember_in u areas memory)
  pub committed :
      (s : Surroundings) (dto : ReportLocationDto) (t : ℕ) (captured : Option ℕ) (current : List ℕ)
      (db db' : Database) (outcome : Outcome) (memory : Option PresenceMemory)
      → dto.device_id ≡ none
      → transition s.connection dto t captured current db ≡ ok (outcome, db')
      → P db memory
      → P db' memory

module _ (P : Database → Option PresenceMemory → Type 0) (keep : IsKept P) (s : Surroundings) where
  abbrev Holds : World → Type 0
  Holds w = P w.database w.memory

  Holds-hint : (u : String) (w : World) → Holds w → Holds (previous_hint s u w).1
  Holds-hint u w h =
      let (same, kept) = previous_hint-eq s u w in
      elim kept [
        | inl e ↦ rw (same, e) h
        | inr e ↦
            rw (same, e)
              (keep.remembered u (area_ids_of u w.database.presence) w.database w.memory h)
      ]

  module _ (dto : ReportLocationDto) (t : ℕ) (anonymous : dto.device_id ≡ none) where
    Holds-committed :
        (current : List ℕ) (hint : Hint) (outcome : Outcome) (w : World)
        {r : LocationReportResponse} {w' : World}
        → after_commit s dto.user_id current hint outcome w ≡ (ok r, w')
        → Holds w
        → Holds w'
    Holds-committed current hint outcome w e h =
        let (_, tables, memory) = after_commit-eq s dto t current hint outcome w e in
        rw (tables, memory) (either outcome.response.duplicate)
      where
        either :
            (duplicate : Bool)
            → P w.database
                (if duplicate then w.memory else remember_in dto.user_id current w.memory)
        either true = h
        either false = keep.remembered dto.user_id current w.database w.memory h

    Holds-evaluate_ok :
        (current : List ℕ) (hint : Hint) (w : World) {r : LocationReportResponse} {w' : World}
        → evaluate s dto t current hint w ≡ (ok r, w')
        → Holds w
        → Holds w'
    unfolding evaluate
    Holds-evaluate_ok current hint w e h = elim (Bool-cases (differs current hint.previous)) [
      | inr same ↦
          let (_, tables, memory) = acknowledge-eq s dto t current hint w (rw same at e) in
          rw (tables, memory) h
      | inl changed ↦
          let captured = or_else dto.captured_at dto.observed_at in
          let (outcome, w₁, ran, rest) =
            >>=-eq-ok
              (run_transaction
                (transaction s.connection (transition s.connection dto t captured current)))
              (after_commit s dto.user_id current hint) w (rw changed at e) in
          let (body, memory) = run_transaction-eq-ok s dto t current w ran in
          Holds-committed current hint outcome w₁ rest (
            rw memory (
              keep.committed s dto t captured current w.database w₁.database outcome w.memory
                anonymous body h))
    ]

    Holds-evaluate :
        (current : List ℕ) (hint : Hint) (w : World) (r : Result LocationReportResponse)
        {w' : World}
        → evaluate s dto t current hint w ≡ (r, w')
        → Holds w
        → Holds w'
    Holds-evaluate current hint w (ok r) e h = Holds-evaluate_ok current hint w e h
    Holds-evaluate current hint w (err x) e h =
        subst Holds (sym (evaluate-eq-err s dto t current hint w e)) h

    Holds-after_hint :
        (current : List ℕ) (r : Result Hint) (w : World)
        → Holds w
        → Holds (continue r (evaluate s dto t current) w).1
    Holds-after_hint current (ok hint) w h =
        Holds-evaluate current hint w (evaluate s dto t current hint w).0 refl h
    Holds-after_hint current (err x) w h = h

    Holds-after_covering :
        (r : Result (List ℕ)) (w : World)
        → Holds w
        → Holds
            (continue r (λ current. previous_hint s dto.user_id >>= evaluate s dto t current) w).1
    Holds-after_covering (ok current) w h =
        Holds-after_hint current (previous_hint s dto.user_id w).0 (previous_hint s dto.user_id w).1
          (Holds-hint dto.user_id w h)
    Holds-after_covering (err x) w h = h

    -- a report keeps what is kept by all that it does, whether it returns or throws
    pub report-keeps : (w : World) → Holds w → Holds (report s dto t w).1
    unfolding report
    report-keeps w h = elim (Bool-cases (is_too_uncertain dto.accuracy)) [
      | inl bad ↦ rw bad h
      | inr good ↦ rw good (Holds-after_covering (s.find_covering_area_ids dto.lng dto.lat) w h)
    ]
