-- ===== src/Database/Growing.antt =====
-- What statements leave of the tables of src/migrations: the dedup state and the areas as they are,
-- and the log with rows appended at most.
use mathlib.Core.List.{append_assoc}
use geofence_location.Prelude.{
  ℕ, String, ◌≡◌, ◌∙◌, ap, subst, Bool, true, false, not, ◌&&◌, Option, none, some, List, [], ◌∷◌,
  ◌++◌, ◌==◌, contains, filter, arith, Bool-cases, inl, inr, if◌then◌else◌,
}
use geofence_location.Database.{
  Database, DriverError, Connection, LogRow, ok, err, insert_presence, insert_log, delete_presence,
  Tx, ◌>>=◌, pure, fails, is_present, presence_row, log_row, insert_presence_row, insert_log_row,
  delete_presence_rows, query_failed, presence_area_violation, logs_area_violation,
}
use geofence_location.Database.Laws.{>>=-eq-ok, returned}

-- From `base` on, only presence rows were written and log rows appended.
pub record IsGrown (base db : Database) : Type 0 where
  pub states : db.event_state ≡ base.event_state
  pub areas : db.area_ids ≡ base.area_ids
  pub logs : (added : List LogRow) × (db.logs ≡ base.logs ++ added)

module _ (base : Database) where
  abbrev pub KeepsGrown : {A : Type 0} → Tx A → Type 0
  KeepsGrown {A} m =
      (db : Database) (a : A) (db' : Database)
      → m db ≡ ok (a, db')
      → IsGrown base db
      → IsGrown base db'

  pub >>=-KeepsGrown :
      {A B : Type 0} (m : Tx A) (f : A → Tx B)
      → KeepsGrown m
      → ((a : A) → KeepsGrown (f a))
      → KeepsGrown (m >>= f)
  >>=-KeepsGrown m f hm hf db b db' e h =
      let (a, db₁, e₁, e₂) = >>=-eq-ok m f db e in hf a db₁ b db' e₂ (hm db a db₁ e₁ h)

  pub KeepsGrown-read : {A : Type 0} (f : Database → A) → KeepsGrown λ db. pure (f db) db
  KeepsGrown-read f db a db' e h = subst (IsGrown base) (returned e).1 h

  pub KeepsGrown-pure : {A : Type 0} (a : A) → KeepsGrown (pure a)
  KeepsGrown-pure a = KeepsGrown-read (λ _. a)

  pub KeepsGrown-fails : (fault : Option DriverError) → KeepsGrown (fails fault)
  KeepsGrown-fails none db a db' e h = subst (IsGrown base) (returned e).1 h
  KeepsGrown-fails (some x) db a db' e h = cc

  pub KeepsGrown-if :
      {A : Type 0} (b : Bool) (m m' : Tx A)
      → KeepsGrown m
      → KeepsGrown m'
      → KeepsGrown (if b then m else m')
  KeepsGrown-if true m m' hm hm' = hm
  KeepsGrown-if false m m' hm hm' = hm'

  module _ (c : Connection) (u : String) where
    insert_row-KeepsGrown :
        (a t : ℕ)
        → KeepsGrown λ db.
          if is_present u a db.presence
          then ok (false, db)
          else if contains db.area_ids a
          then ok (true, record db { presence = db.presence ++ presence_row u t a ∷ [] })
          else err (query_failed presence_area_violation)
    insert_row-KeepsGrown a t db b db' e h = elim (Bool-cases (is_present u a db.presence)) [
      | inl there ↦ subst (IsGrown base) (returned (rw there at e)).1 h
      | inr new ↦ elim (Bool-cases (contains db.area_ids a)) [
        | inr gone ↦ ground (arith, new, gone)
        | inl known ↦
            subst (IsGrown base) (returned (rw (new, known) at e)).1
              (record { states = h.states; areas = h.areas; logs = h.logs })
      ]
    ]

    pub insert_presence_row-KeepsGrown : (a t : ℕ) → KeepsGrown (insert_presence_row c u a t)
    unfolding insert_presence_row
    insert_presence_row-KeepsGrown a t =
        >>=-KeepsGrown (fails (c.fault (insert_presence a))) _
          (KeepsGrown-fails (c.fault (insert_presence a))) (λ _. insert_row-KeepsGrown a t)

    insert_log-KeepsGrown :
        (a t : ℕ) (captured : Option ℕ)
        → KeepsGrown λ db.
          if contains db.area_ids a
          then ok (tt, record db { logs = db.logs ++ log_row c u t captured a ∷ [] })
          else err (query_failed logs_area_violation)
    insert_log-KeepsGrown a t captured db b db' e h = elim (Bool-cases (contains db.area_ids a)) [
      | inr gone ↦ ground (arith, gone)
      | inl known ↦
          let (added, held) = h.logs in
          let row = log_row c u t captured a in
          subst (IsGrown base) (returned (rw known at e)).1 (record {
            states = h.states;
            areas = h.areas;
            logs = (
              added ++ row ∷ [],
              ap (λ l. l ++ row ∷ []) held ∙ append_assoc base.logs added (row ∷ []),
            );
          })
    ]

    pub insert_log_row-KeepsGrown :
        (a t : ℕ) (captured : Option ℕ) → KeepsGrown (insert_log_row c u a t captured)
    unfolding insert_log_row
    insert_log_row-KeepsGrown a t captured =
        >>=-KeepsGrown (fails (c.fault (insert_log a))) _
          (KeepsGrown-fails (c.fault (insert_log a))) (λ _. insert_log-KeepsGrown a t captured)

    delete_rows-KeepsGrown :
        (areas : List ℕ)
        → KeepsGrown λ db. ok (
          tt,
          record db {
            presence = filter (λ r. not (r.user_id == u && contains areas r.area_id)) db.presence;
          },
        )
    delete_rows-KeepsGrown areas db b db' e h =
        subst (IsGrown base) (returned e).1
          (record { states = h.states; areas = h.areas; logs = h.logs })

    pub delete_presence_rows-KeepsGrown :
        (areas : List ℕ) → KeepsGrown (delete_presence_rows c u areas)
    unfolding delete_presence_rows
    delete_presence_rows-KeepsGrown areas =
        >>=-KeepsGrown (fails (c.fault delete_presence)) _
          (KeepsGrown-fails (c.fault delete_presence)) (λ _. delete_rows-KeepsGrown areas)
