-- ===== src/Locations/Failing.antt =====
-- `report` when it throws.
use geofence_location.Prelude.{
  ℕ, String, ◌≡◌, refl, sym, ap, subst, ◌⊎◌, inl, inr, List, arith, Bool-cases,
}
use geofence_location.Database.{Failure, Result, err, area_ids_of}
use geofence_location.Database.Laws.{contains-area_ids_of}
use geofence_location.Service.{
  World, Surroundings, remember_in, cache_get, cache_invalidate, cache_populate, lift,
}
use geofence_location.Service.Laws.{>>=-eq-err}
use geofence_location.Locations.{ReportLocationDto, is_too_uncertain}
use geofence_location.Locations.Coherence.{IsCoherent, IsCoherent-remember}
use geofence_location.Locations.Report.{
  Hint, previous_hint, read_presence_unlocked, evaluate, report, after_commit, run_transaction,
  acknowledge_no_change,
}

-- What a report that throws leaves behind.
pub record IsUndone (w w' : World) : Type 0 where
  pub database : w'.database ≡ w.database
  pub coherent : IsCoherent w'.memory w'.database.presence

module _ (s : Surroundings) where
  -- the hint changes no table, and puts nothing but the user's presence into the memory
  pub previous_hint-eq :
      (u : String) (w : World)
      → ((previous_hint s u w).1.database ≡ w.database)
        × (((previous_hint s u w).1.memory ≡ w.memory)
            ⊎ ((previous_hint s u w).1.memory
                ≡ remember_in u (area_ids_of u w.database.presence) w.memory))
  unfolding previous_hint read_presence_unlocked cache_get
  previous_hint-eq u w = (ground arith, ground arith)

  previous_hint-IsCoherent :
      (u : String) (w : World)
      → IsCoherent w.memory w.database.presence
      → IsCoherent (previous_hint s u w).1.memory (previous_hint s u w).1.database.presence
  previous_hint-IsCoherent u w h =
      let (same, kept) = previous_hint-eq u w in
      elim kept [
        | inl e ↦ rw (same, e) h
        | inr e ↦
            rw (same, e)
              (IsCoherent-remember u (area_ids_of u w.database.presence) w.memory
                w.database.presence w.database.presence h
                (λ b. contains-area_ids_of u b w.database.presence) (λ v b _. refl))
      ]

  pub evaluate-eq-err :
      (dto : ReportLocationDto) (t : ℕ) (current : List ℕ) (hint : Hint) (w : World) {x : Failure}
      {w' : World}
      → evaluate s dto t current hint w ≡ (err x, w')
      → w' ≡ w
  unfolding evaluate after_commit run_transaction acknowledge_no_change cache_invalidate
      cache_populate
  evaluate-eq-err dto t current hint w e = ground arith

  IsUndone-of_hint :
      (u : String) (w w₁ : World) {r : Result Hint}
      → IsCoherent w.memory w.database.presence
      → previous_hint s u w ≡ (r, w₁)
      → IsUndone w w₁
  IsUndone-of_hint u w w₁ h e =
      subst (IsUndone w) (ap (λ p. p.1) e)
        (record { database = (previous_hint-eq u w).0; coherent = previous_hint-IsCoherent u w h })

  -- A report that throws, for a reading too uncertain, a snapshot that is not built, or a failure
  -- of any statement or of the commit, leaves every table as it was, and the memory in agreement
  -- with the presence table if it was.
  pub report-IsUndone :
      (dto : ReportLocationDto) (t : ℕ) (w : World) {x : Failure} {w' : World}
      → IsCoherent w.memory w.database.presence
      → report s dto t w ≡ (err x, w')
      → IsUndone w w'
  unfolding report
  report-IsUndone dto t w {x} {w'} h e = elim (Bool-cases (is_too_uncertain dto.accuracy)) [
    | inl bad ↦ unchanged (ap (λ p. p.1) (rw bad at e))
    | inr good ↦
        elim (>>=-eq-err (lift (s.find_covering_area_ids dto.lng dto.lat)) _ w (rw good at e)) [
          | inl none_built ↦ unchanged (ap (λ p. p.1) none_built)
          | inr (current, w₁, found, rest) ↦
              elim (>>=-eq-err (previous_hint s dto.user_id) (evaluate s dto t current) w₁ rest) [
                | inl unread ↦ hinted w₁ w' (ap (λ p. p.1) found) unread
                | inr (hint, w₂, asked, failed) ↦
                    subst (IsUndone w) (sym (evaluate-eq-err dto t current hint w₂ failed))
                      (hinted w₁ w₂ (ap (λ p. p.1) found) asked)
              ]
        ]
  ]
    where
      unchanged : w ≡ w' → IsUndone w w'
      unchanged same = subst (IsUndone w) same (record { database = refl; coherent = h })

      hinted :
          (w₁ w₂ : World) {r : Result Hint}
          → w ≡ w₁
          → previous_hint s dto.user_id w₁ ≡ (r, w₂)
          → IsUndone w w₂
      hinted w₁ w₂ {r} same asked =
          IsUndone-of_hint dto.user_id w w₂ h
            (subst (λ y. previous_hint s dto.user_id y ≡ (r, w₂)) (sym same) asked)
