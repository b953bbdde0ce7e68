-- ===== src/Locations/Transition/Growing.antt =====
-- What the transaction of `report` in src/locations/locations.service.ts leaves of the tables, for a
-- report without a device.
use geofence_location.Prelude.{
  ℕ, String, ◌≡◌, refl, sym, subst, false, Option, none, List, [], ◌∷◌, if◌then◌else◌,
}
use geofence_location.Database.{
  Database, Connection, pure, fails, lock_and_read, area_ids_of, lock_user_and_read_presence,
  insert_presence_row, insert_log_row,
}
use geofence_location.Database.Growing.{
  KeepsGrown, >>=-KeepsGrown, KeepsGrown-read, KeepsGrown-pure, KeepsGrown-fails, KeepsGrown-if,
  insert_presence_row-KeepsGrown, insert_log_row-KeepsGrown, delete_presence_rows-KeepsGrown,
}
use geofence_location.Locations.{ReportLocationDto}
use geofence_location.Locations.Transition.{
  dedup, enter_area, enter_areas, depart, entered_areas, departed_areas, write_transition,
  already_processed, transition,
}

module _ (base : Database) (c : Connection) where
  module _ (u : String) where
    enter_area-KeepsGrown :
        (t : ℕ) (captured : Option ℕ) (a : ℕ) → KeepsGrown base (enter_area c u t captured a)
    unfolding enter_area
    enter_area-KeepsGrown t captured a =
        >>=-KeepsGrown base (insert_presence_row c u a t) _
          (insert_presence_row-KeepsGrown base c u a t)
          λ inserted.
            >>=-KeepsGrown base (if inserted then insert_log_row c u a t captured else pure tt) _
              (KeepsGrown-if base inserted (insert_log_row c u a t captured) (pure tt)
                (insert_log_row-KeepsGrown base c u a t captured) (KeepsGrown-pure base tt))
              (λ _. KeepsGrown-pure base inserted)

    enter_areas-KeepsGrown :
        (t : ℕ) (captured : Option ℕ) (areas : List ℕ)
        → KeepsGrown base (enter_areas c u t captured areas)
    unfolding enter_areas
    enter_areas-KeepsGrown t captured [] = KeepsGrown-pure base []
    enter_areas-KeepsGrown t captured (a ∷ areas) =
        >>=-KeepsGrown base (enter_area c u t captured a) _ (enter_area-KeepsGrown t captured a)
          λ inserted.
            >>=-KeepsGrown base (enter_areas c u t captured areas) _
              (enter_areas-KeepsGrown t captured areas)
              (λ rest. KeepsGrown-pure base (if inserted then a ∷ rest else rest))

    depart-KeepsGrown : (areas : List ℕ) → KeepsGrown base (depart c u areas)
    unfolding depart
    depart-KeepsGrown [] = KeepsGrown-pure base tt
    depart-KeepsGrown (a ∷ areas) = delete_presence_rows-KeepsGrown base c u (a ∷ areas)

    lock_user-KeepsGrown : KeepsGrown base (lock_user_and_read_presence c u)
    unfolding lock_user_and_read_presence
    lock_user-KeepsGrown =
        >>=-KeepsGrown base (fails (c.fault lock_and_read)) _
          (KeepsGrown-fails base (c.fault lock_and_read))
          (λ _. KeepsGrown-read base (λ db. area_ids_of u db.presence))

    write_transition-KeepsGrown :
        (t : ℕ) (captured : Option ℕ) (current previous : List ℕ)
        → KeepsGrown base (write_transition c u t captured current previous)
    unfolding write_transition
    write_transition-KeepsGrown t captured current previous =
        >>=-KeepsGrown base (enter_areas c u t captured (entered_areas previous current)) _
          (enter_areas-KeepsGrown t captured (entered_areas previous current))
          λ entered.
            >>=-KeepsGrown base (depart c u (departed_areas previous current)) _
              (depart-KeepsGrown (departed_areas previous current)) (λ _. KeepsGrown-pure base _)

  dedup-eq-pure :
      (dto : ReportLocationDto) (t : ℕ) → dto.device_id ≡ none → dedup c dto t ≡ pure false
  unfolding dedup
  dedup-eq-pure dto t e = rw e refl

  -- A transaction without a device that succeeds has written presence rows and appended log rows.
  pub transition-KeepsGrown :
      (dto : ReportLocationDto) (t : ℕ) (captured : Option ℕ) (current : List ℕ)
      → dto.device_id ≡ none
      → KeepsGrown base (transition c dto t captured current)
  unfolding transition
  transition-KeepsGrown dto t captured current anonymous =
      >>=-KeepsGrown base (lock_user_and_read_presence c dto.user_id) _
        (lock_user-KeepsGrown dto.user_id)
        λ previous.
          >>=-KeepsGrown base (dedup c dto t) _
            (subst (KeepsGrown base) (sym (dedup-eq-pure dto t anonymous))
              (KeepsGrown-pure base false))
            λ duplicate.
              KeepsGrown-if base duplicate (pure already_processed)
                (write_transition c dto.user_id t captured current previous)
                (KeepsGrown-pure base already_processed)
                (write_transition-KeepsGrown dto.user_id t captured current previous)
