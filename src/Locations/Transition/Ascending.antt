-- ===== src/Locations/Transition/Ascending.antt =====
-- The order in which a transition takes its rows.
use mathlib.Core.List.{append-nil}
use geofence_location.Prelude.{
  ℕ, ◌≡◌, sym, ap, ◌∙◌, subst, String, Option, ◌++◌, map, if◌then◌else◌, Bool, true, false, not,
  List, [], ◌∷◌, filter, contains, contains-filter, IsDistinct, IsAscending, sort-IsAscending,
  arith, Bool-cases, inl, inr,
}
use geofence_location.Database.{
  Database, Connection, ok, pure, log_row, lock_user_and_read_presence,
}
use geofence_location.Database.Laws.{>>=-eq-ok, returned}
use geofence_location.Locations.{ReportLocationDto}
use geofence_location.Locations.Transition.{
  Outcome, dedup, enter_areas, depart, entered_areas, departed_areas, write_transition,
  already_processed, transition,
}
use geofence_location.Locations.Transition.Entering.{enter_areas-IsEntered}
use geofence_location.Locations.Transition.Commit.{transition-eq-ok}

filter-IsDistinct : (test : ℕ → Bool) (xs : List ℕ) → IsDistinct xs → IsDistinct (filter test xs)
filter-IsDistinct test [] h = tt
filter-IsDistinct test (x ∷ xs) h = elim (Bool-cases (test x)) [
  | inl kept ↦
      rw kept (ground (arith, contains-filter test xs x, h.0), filter-IsDistinct test xs h.1)
  | inr dropped ↦ rw dropped (filter-IsDistinct test xs h.1)
]

entered_areas-IsAscending :
    (previous current : List ℕ) → IsDistinct current → IsAscending (entered_areas previous current)
unfolding entered_areas
entered_areas-IsAscending previous current h =
    sort-IsAscending (filter (λ a. not (contains previous a)) current)
      (filter-IsDistinct (λ a. not (contains previous a)) current h)

module _ (c : Connection) (t : ℕ) (captured : Option ℕ) (current : List ℕ)
    (distinct : IsDistinct current) where
  write_transition-IsAscending :
      (u : String) (previous : List ℕ) (db : Database) {outcome : Outcome} {db' : Database}
      → write_transition c u t captured current previous db ≡ ok (outcome, db')
      → IsAscending outcome.response.entered_area_ids
  unfolding write_transition
  write_transition-IsAscending u previous db h =
      let wanted = entered_areas previous current in
      let (out, db₁, loop, h₁) = >>=-eq-ok (enter_areas c u t captured wanted) _ db h in
      let (x, db₂, left, h₂) = >>=-eq-ok (depart c u (departed_areas previous current)) _ db₁ h₁ in
      let (answer, final) = returned h₂ in
      subst (λ (o : Outcome). IsAscending o.response.entered_area_ids) answer
        ((enter_areas-IsEntered c u t captured wanted db loop).ascending
          (entered_areas-IsAscending previous current distinct))

  gated-IsAscending :
      (u : String) (duplicate : Bool) (previous : List ℕ) (db : Database) {outcome : Outcome}
      {db' : Database}
      → (if duplicate
            then pure already_processed
            else write_transition c u t captured current previous)
          db
        ≡ ok (outcome, db')
      → IsAscending outcome.response.entered_area_ids
  gated-IsAscending u true previous db h =
      subst (λ (o : Outcome). IsAscending o.response.entered_area_ids) (returned h).0 tt
  gated-IsAscending u false previous db h = write_transition-IsAscending u previous db h

  IsAscending-of_transition :
      (dto : ReportLocationDto) (db : Database) {outcome : Outcome} {db' : Database}
      → transition c dto t captured current db ≡ ok (outcome, db')
      → IsAscending outcome.response.entered_area_ids
  unfolding transition
  IsAscending-of_transition dto db h =
      let (previous, db₀, locked, h₁) =
        >>=-eq-ok (lock_user_and_read_presence c dto.user_id) _ db h in
      let (duplicate, db₁, gate, h₂) = >>=-eq-ok (dedup c dto t) _ db₀ h₁ in
      gated-IsAscending dto.user_id duplicate previous db₁ h₂

-- Where the covering areas are distinct, a transition that commits returns the areas that it entered
-- in strictly ascending order, and has appended their log rows in this order, one for each: the order
-- in which its loop took effect on the rows.
pub transition-IsAscending :
    (c : Connection) (dto : ReportLocationDto) (t : ℕ) (captured : Option ℕ) (current : List ℕ)
    (db : Database) {outcome : Outcome} {db' : Database}
    → IsDistinct current
    → transition c dto t captured current db ≡ ok (outcome, db')
    → IsAscending outcome.response.entered_area_ids
      × (db'.logs
          ≡ db.logs ++ map (log_row c dto.user_id t captured) outcome.response.entered_area_ids)
transition-IsAscending c dto t captured current db {outcome} {db'} distinct h = (
  IsAscending-of_transition c t captured current distinct dto db h,
  elim (transition-eq-ok c dto t captured current db h) [
    | inl d ↦
        ap (λ x. x.logs) d.unchanged
        ∙ sym (append-nil db.logs)
        ∙ ap (λ out. db.logs ++ map (log_row c dto.user_id t captured) out) (sym d.nothing_entered)
    | inr (moved, _) ↦ moved.logs
  ],
)
