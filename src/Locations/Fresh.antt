-- ===== src/Locations/Fresh.antt =====
-- `report` of src/locations/locations.service.ts without a device, as the worker calls it.
use geofence_location.Prelude.{
  ℕ, ◌≡◌, ◌∙◌, ap, false, Option, none, List, arith, Bool-cases, inl, inr,
}
use geofence_location.Database.{Database, Connection, ok, transaction, lock_user_and_read_presence}
use geofence_location.Database.Laws.{>>=-eq-ok}
use geofence_location.Service.{World, Surroundings, lift}
use geofence_location.Service.Laws.{>>=-eq-ok as action->>=-eq-ok}
use geofence_location.Locations.{
  ReportLocationDto, LocationReportResponse, is_too_uncertain, or_else, differs,
}
use geofence_location.Locations.Transition.{Outcome, transition, dedup, write_transition}
use geofence_location.Locations.Evaluation.{run_transaction-eq-ok, acknowledge-eq, after_commit-eq}
use geofence_location.Locations.Report.{
  Hint, previous_hint, evaluate, report, after_commit, run_transaction,
}

write_transition-duplicate :
    (c : Connection) (dto : ReportLocationDto) (t : ℕ) (captured : Option ℕ)
    (current previous : List ℕ) (db : Database) {outcome : Outcome} {db' : Database}
    → write_transition c dto.user_id t captured current previous db ≡ ok (outcome, db')
    → outcome.response.duplicate ≡ false
unfolding write_transition
write_transition-duplicate c dto t captured current previous db e = ground arith

transition-duplicate :
    (c : Connection) (dto : ReportLocationDto) (t : ℕ) (captured : Option ℕ) (current : List ℕ)
    (db : Database) {outcome : Outcome} {db' : Database}
    → dto.device_id ≡ none
    → transition c dto t captured current db ≡ ok (outcome, db')
    → outcome.response.duplicate ≡ false
unfolding transition dedup
transition-duplicate c dto t captured current db nobody e =
    let (previous, db₀, locked, rest) =
      >>=-eq-ok (lock_user_and_read_presence c dto.user_id) _ db e in
    write_transition-duplicate c dto t captured current previous db₀ (rw nobody at rest)

module _ (s : Surroundings) (dto : ReportLocationDto) (t : ℕ) (nobody : dto.device_id ≡ none) where
  committed :
      (current : List ℕ) (hint : Hint) (w : World) (outcome : Outcome) (w₁ : World)
      {r : LocationReportResponse} {w' : World}
      → transition s.connection dto t (or_else dto.captured_at dto.observed_at) current w.database
        ≡ ok (outcome, w₁.database)
      → after_commit s dto.user_id current hint outcome w₁ ≡ (ok r, w')
      → r.duplicate ≡ false
  committed current hint w outcome w₁ body rest =
      ap (λ x. x.duplicate) (after_commit-eq s dto t current hint outcome w₁ rest).0
      ∙ transition-duplicate s.connection dto t (or_else dto.captured_at dto.observed_at) current
          w.database nobody body

  evaluate-duplicate :
      (current : List ℕ) (hint : Hint) (w : World) {r : LocationReportResponse} {w' : World}
      → evaluate s dto t current hint w ≡ (ok r, w')
      → r.duplicate ≡ false
  unfolding evaluate
  evaluate-duplicate current hint w e = elim (Bool-cases (differs current hint.previous)) [
    | inl changed ↦
        let (outcome, w₁, ran, rest) =
          action->>=-eq-ok
            (run_transaction (
              transaction s.connection
                (transition s.connection dto t (or_else dto.captured_at dto.observed_at) current)))
            (after_commit s dto.user_id current hint) w (rw changed at e) in
        committed current hint w outcome w₁ (run_transaction-eq-ok s dto t current w ran).0 rest
    | inr same ↦ ap (λ x. x.duplicate) (acknowledge-eq s dto t current hint w (rw same at e)).0
  ]

  -- Without a device there is no dedup in the transaction, and no report is a duplicate.
  pub report-duplicate :
      (w : World) {r : LocationReportResponse} {w' : World}
      → report s dto t w ≡ (ok r, w')
      → r.duplicate ≡ false
  unfolding report
  report-duplicate w e = elim (Bool-cases (is_too_uncertain dto.accuracy)) [
    | inl bad ↦ cc (rw bad at e)
    | inr good ↦
        let (current, w₁, found, rest) =
          action->>=-eq-ok (lift (s.find_covering_area_ids dto.lng dto.lat)) _ w (rw good at e) in
        let (hint, w₂, asked, last) =
          action->>=-eq-ok (previous_hint s dto.user_id) (evaluate s dto t current) w₁ rest in
        evaluate-duplicate current hint w₂ last
  ]
