-- ===== src/Locations/Evaluation.antt =====
-- `report` of src/locations/locations.service.ts in a worker, on every path.
use mathlib.Core.Path.{subst₂}
use mathlib.Core.List.{append-nil}
use geofence_location.Prelude.{
  ℕ, ◌≡◌, refl, sym, ◌∙◌, ap, eq_refl, subst, true, false, ◌⊎◌, inl, inr, Option, some, List, [],
  arith, eq_iff, IsDistinct, if◌then◌else◌, Bool-cases,
}
use geofence_location.Database.{Database, ok, transaction}
use geofence_location.Presence.{PresenceMemory}
use geofence_location.Service.{World, Surroundings, remember_in, cache_invalidate, cache_populate}
use geofence_location.Locations.{
  ReportLocationDto, LocationReportResponse, is_too_uncertain, or_else, differs,
}
use geofence_location.Service.Laws.{>>=-eq-ok}
use geofence_location.Locations.Coherence.{
  IsCoherent, IsPresenceOf, IsCoherent-remember, IsTrueHint, previous_hint-IsTrueHint,
}
use geofence_location.Locations.Hint.{SameAreas-of_not_differs}
use geofence_location.Locations.Transition.{Outcome, transition}
use geofence_location.Locations.Transition.Commit.{IsTransition, IsDuplicate, transition-eq-ok}
use geofence_location.Locations.Report.{
  Hint, previous_hint, evaluate, report, after_commit, run_transaction, acknowledge_no_change,
}

-- What a report that succeeds in a worker has done.
pub record IsEvaluated (s : Surroundings) (dto : ReportLocationDto) (t : ℕ) (current : List ℕ)
    (db : Database) (r : LocationReportResponse) (w' : World) : Type 0 where
  pub coherent : IsCoherent w'.memory w'.database.presence
  pub effect :
      ((r.duplicate ≡ true) × (r.entered_area_ids ≡ []) × (w'.database ≡ db))
      ⊎ ((r.duplicate ≡ false)
          × IsTransition s.connection dto.user_id t
              (or_else dto.captured_at dto.observed_at)
              current
              db
              r.entered_area_ids
              w'.database)

module _ (s : Surroundings) (dto : ReportLocationDto) (t : ℕ) (current : List ℕ) where
  abbrev pub captured : Option ℕ
  captured = or_else dto.captured_at dto.observed_at

  -- the world after the transaction and the steps behind it
  pub after_commit-eq :
      (hint : Hint) (outcome : Outcome) (w : World) {r : LocationReportResponse} {w' : World}
      → after_commit s dto.user_id current hint outcome w ≡ (ok r, w')
      → (r ≡ outcome.response)
        × (w'.database ≡ w.database)
        × (w'.memory ≡ (
            if outcome.response.duplicate
            then w.memory
            else remember_in dto.user_id current w.memory))
  unfolding after_commit cache_invalidate
  after_commit-eq hint outcome w e = (ground arith, ground arith, ground arith)

  pub acknowledge-eq :
      (hint : Hint) (w : World) {r : LocationReportResponse} {w' : World}
      → acknowledge_no_change s dto.user_id hint w ≡ (ok r, w')
      → (r ≡ record { entered_area_ids = []; duplicate = false })
        × (w'.database ≡ w.database)
        × (w'.memory ≡ w.memory)
  unfolding acknowledge_no_change cache_populate
  acknowledge-eq hint w e = (ground arith, ground arith, ground arith)

  -- A hint with the covering areas leaves nothing to do: the empty transition is the right one.
  IsTransition-none :
      (db : Database)
      → IsPresenceOf dto.user_id db.presence current
      → IsTransition s.connection dto.user_id t captured current db [] db
  IsTransition-none db truth = record {
    presence = λ v b. ground (arith, truth b, eq_iff dto.user_id v);
    entered = λ b. ground (arith, truth b);
    distinct = tt;
    logs = simp append-nil;
    area_ids = refl;
  }

  module _ (db : Database) (memory : Option PresenceMemory)
      (h : IsCoherent memory db.presence) where
    IsEvaluated-of_same :
        {r : LocationReportResponse} {w' : World}
        → IsPresenceOf dto.user_id db.presence current
        → r ≡ record { entered_area_ids = []; duplicate = false }
        → w'.database ≡ db
        → w'.memory ≡ memory
        → IsEvaluated s dto t current db r w'
    IsEvaluated-of_same {r} {w'} truth e e₁ e₂ = record {
      coherent = subst₂ (λ m d. IsCoherent m d.presence) (sym e₂) (sym e₁) h;
      effect = inr (
        ap (λ x. x.duplicate) e,
        subst₂ (IsTransition s.connection dto.user_id t captured current db)
            (sym (ap (λ x. x.entered_area_ids) e)) (sym e₁) (IsTransition-none db truth),
      );
    }

    IsEvaluated-of_duplicate :
        (outcome : Outcome) (db' : Database) {r : LocationReportResponse} {w' : World}
        → IsDuplicate db outcome db'
        → r ≡ outcome.response
        → w'.database ≡ db'
        → w'.memory
          ≡ (if outcome.response.duplicate then memory else remember_in dto.user_id current memory)
        → IsEvaluated s dto t current db r w'
    IsEvaluated-of_duplicate outcome db' {r} {w'} d e e₁ e₂ = record {
      coherent = subst₂ (λ m x. IsCoherent m x.presence) (sym e₃) (sym (e₁ ∙ d.unchanged)) h;
      effect = inl (
        ap (λ x. x.duplicate) e ∙ d.duplicate,
        ap (λ x. x.entered_area_ids) e ∙ d.nothing_entered,
        e₁ ∙ d.unchanged,
      );
    }
      where
        e₃ : w'.memory ≡ memory
        e₃ = e₂ ∙ rw d.duplicate

    IsEvaluated-of_transition :
        (outcome : Outcome) (db' : Database) {r : LocationReportResponse} {w' : World}
        → IsTransition s.connection dto.user_id t captured current db
            outcome.response.entered_area_ids db'
        → outcome.response.duplicate ≡ false
        → r ≡ outcome.response
        → w'.database ≡ db'
        → w'.memory
          ≡ (if outcome.response.duplicate then memory else remember_in dto.user_id current memory)
        → IsEvaluated s dto t current db r w'
    IsEvaluated-of_transition outcome db' {r} {w'} d fresh e e₁ e₂ = record {
      coherent =
          subst₂ (λ m x. IsCoherent m x.presence) (sym e₃) (sym e₁)
            (IsCoherent-remember dto.user_id current memory db.presence db'.presence h
              (λ b. ground (arith, d.presence dto.user_id b, eq_refl dto.user_id))
              (λ v b other. ground (arith, d.presence v b)));
      effect = inr (
        ap (λ x. x.duplicate) e ∙ fresh,
        subst₂ (IsTransition s.connection dto.user_id t captured current db)
            (sym (ap (λ x. x.entered_area_ids) e)) (sym e₁) d,
      );
    }
      where
        e₃ : w'.memory ≡ remember_in dto.user_id current memory
        e₃ = e₂ ∙ rw fresh

  pub run_transaction-eq-ok :
      (w : World) {outcome : Outcome} {w₁ : World}
      → run_transaction
          (transaction s.connection (transition s.connection dto t captured current))
          w
        ≡ (ok outcome, w₁)
      → (transition s.connection dto t captured current w.database ≡ ok (outcome, w₁.database))
        × (w₁.memory ≡ w.memory)
  unfolding run_transaction transaction
  run_transaction-eq-ok w e = (ground arith, ground arith)

  IsEvaluated-of_commit :
      (hint : Hint) (w : World) (outcome : Outcome) (w₁ : World) {r : LocationReportResponse}
      {w' : World}
      → IsCoherent w.memory w.database.presence
      → transition s.connection dto t captured current w.database ≡ ok (outcome, w₁.database)
      → w₁.memory ≡ w.memory
      → after_commit s dto.user_id current hint outcome w₁ ≡ (ok r, w')
      → IsEvaluated s dto t current w.database r w'
  IsEvaluated-of_commit hint w outcome w₁ {r} {w'} h body kept rest =
      let (e₀, e₁, e₂) = after_commit-eq hint outcome w₁ rest in
      let same_memory : w'.memory ≡ (
          if outcome.response.duplicate
          then w.memory
          else remember_in dto.user_id current w.memory) =
        rw (← kept) e₂ in
      elim (transition-eq-ok s.connection dto t captured current w.database body) [
        | inl d ↦
            IsEvaluated-of_duplicate w.database w.memory h outcome w₁.database d e₀ e₁ same_memory
        | inr (d, fresh) ↦
            IsEvaluated-of_transition w.database w.memory h outcome w₁.database d fresh e₀ e₁
              same_memory
      ]

  evaluate-IsEvaluated :
      (hint : Hint) (w : World) {r : LocationReportResponse} {w' : World}
      → IsDistinct current
      → IsCoherent w.memory w.database.presence
      → IsPresenceOf dto.user_id w.database.presence hint.previous
      → evaluate s dto t current hint w ≡ (ok r, w')
      → IsEvaluated s dto t current w.database r w'
  unfolding evaluate
  evaluate-IsEvaluated hint w {r} {w'} distinct h truth e =
      elim (Bool-cases (differs current hint.previous)) [
        | inl changed ↦
            let (outcome, w₁, ran, rest) =
              >>=-eq-ok
                (run_transaction
                  (transaction s.connection (transition s.connection dto t captured current)))
                (after_commit s dto.user_id current hint) w (rw changed at e) in
            let (body, kept) = run_transaction-eq-ok w ran in
            IsEvaluated-of_commit hint w outcome w₁ h body kept rest
        | inr same ↦
            let (e₀, e₁, e₂) = acknowledge-eq hint w (rw same at e) in
            IsEvaluated-of_same w.database w.memory h
              (λ b. SameAreas-of_not_differs current hint.previous distinct same b ∙ truth b) e₀ e₁
              e₂
      ]

  IsEvaluated-of_hint :
      (w : World) (hint : Hint) (w₁ : World) {r : LocationReportResponse} {w' : World}
      → IsDistinct current
      → IsTrueHint s dto.user_id w hint w₁
      → evaluate s dto t current hint w₁ ≡ (ok r, w')
      → IsEvaluated s dto t current w.database r w'
  IsEvaluated-of_hint w hint w₁ {r} {w'} distinct h e =
      subst (λ d. IsEvaluated s dto t current d r w') h.database
        (evaluate-IsEvaluated hint w₁ distinct
          (subst (λ d. IsCoherent w₁.memory d.presence) (sym h.database) h.coherent)
          (subst (λ d. IsPresenceOf dto.user_id d.presence hint.previous) (sym h.database)
            h.previous)
          e)

  -- In a worker whose memory agrees with the presence table, and where the snapshot answers with
  -- distinct covering areas, a report that returns leaves the memory in agreement. It was a
  -- duplicate, entered nothing and changed no table; or, on the fast path and on the change path
  -- alike, the user's presence is now the covering areas, every other user's is unchanged, and the
  -- log has grown by one row for each covering area that the user was outside of, no area twice,
  -- with the time of acceptance and the device's time: the areas that the response names.
  pub report-IsEvaluated :
      (w : World) (memory : PresenceMemory) {r : LocationReportResponse} {w' : World}
      → w.memory ≡ some memory
      → IsCoherent w.memory w.database.presence
      → s.find_covering_area_ids dto.lng dto.lat ≡ ok current
      → IsDistinct current
      → report s dto t w ≡ (ok r, w')
      → IsEvaluated s dto t current w.database r w'
  unfolding report
  report-IsEvaluated w memory {r} {w'} worker h covering distinct e =
      elim (Bool-cases (is_too_uncertain dto.accuracy)) [
        | inl bad ↦ cc (rw bad at e)
        | inr good ↦
            let (hint, w₁, asked, rest) =
              >>=-eq-ok (previous_hint s dto.user_id) (evaluate s dto t current) w
                (rw (good, covering) at e) in
            IsEvaluated-of_hint w hint w₁ distinct
              (previous_hint-IsTrueHint s dto.user_id w memory worker h asked) rest
      ]
