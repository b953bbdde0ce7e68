-- ===== src/Locations/Transition/Commit.antt =====
-- What a committed transaction of `report` has done to the tables.
use geofence_location.Prelude.{
  ℕ, String, ◌≡◌, refl, ap, ◌∙◌, subst, Bool, true, false, not, ◌&&◌, ◌||◌, Option, List, [], ◌∷◌,
  ◌++◌, map, arith, ◌==◌, ◌⊎◌, inl, inr, eq_iff, contains, filter, contains-sort, contains-filter,
  IsDistinct, if◌then◌else◌,
}
use geofence_location.Database.{
  Database, Connection, ok, pure, is_present, area_ids_of, log_row, delete_presence_rows,
  lock_user_and_read_presence,
}
use geofence_location.Database.Laws.{
  >>=-eq-ok, returned, contains-area_ids_of, is_present-append, is_present-map_row,
  is_present-delete,
}
use geofence_location.Locations.{ReportLocationDto}
use geofence_location.Locations.Transition.{
  Outcome, depart, enter_areas, write_transition, dedup, dedup_device, transition,
  already_processed, entered_areas, departed_areas,
}
use geofence_location.Locations.Transition.Entering.{IsEntered, enter_areas-IsEntered}

-- The tables but for presence are as they were.
pub record SameButPresence (db db' : Database) : Type 0 where
  pub logs : db'.logs ≡ db.logs
  pub event_state : db'.event_state ≡ db.event_state
  pub area_ids : db'.area_ids ≡ db.area_ids

-- The tables but for the dedup state are as they were.
pub record SameButState (db db' : Database) : Type 0 where
  pub presence : db'.presence ≡ db.presence
  pub logs : db'.logs ≡ db.logs
  pub area_ids : db'.area_ids ≡ db.area_ids

module _ (c : Connection) (u : String) where
  depart-eq-ok :
      (areas : List ℕ) (db : Database) {x : Unit {0}} {db' : Database}
      → depart c u areas db ≡ ok (x, db')
      → SameButPresence db db'
        × ((v : String) (b : ℕ)
            → is_present v b db'.presence
              ≡ (is_present v b db.presence && not (u == v && contains areas b)))
  unfolding depart delete_presence_rows
  depart-eq-ok [] db h = (ground arith, λ v b. ground arith)
  depart-eq-ok (a ∷ more) db h =
      (ground arith, λ v b. ground (arith, is_present-delete u v b (a ∷ more) db.presence))

-- The contract of one evaluated position: the user's presence becomes the covering areas, everyone
-- else's stays, and one log row is written for each area that the user was outside of.
pub record IsTransition (c : Connection) (u : String) (t : ℕ) (captured : Option ℕ)
    (current : List ℕ) (db : Database) (out : List ℕ) (db' : Database) : Type 0 where
  pub presence :
      (v : String) (b : ℕ)
      → is_present v b db'.presence
        ≡ (if u == v then contains current b else is_present v b db.presence)
  pub entered : (b : ℕ) → contains out b ≡ (contains current b && not (is_present u b db.presence))
  pub distinct : IsDistinct out
  pub logs : db'.logs ≡ db.logs ++ map (log_row c u t captured) out
  pub area_ids : db'.area_ids ≡ db.area_ids

contains-entered_areas :
    (previous current : List ℕ) (b : ℕ)
    → contains (entered_areas previous current) b
      ≡ (contains current b && not (contains previous b))
unfolding entered_areas
contains-entered_areas previous current b =
    contains-sort (filter (λ a. not (contains previous a)) current) b
    ∙ contains-filter (λ a. not (contains previous a)) current b

contains-departed_areas :
    (previous current : List ℕ) (b : ℕ)
    → contains (departed_areas previous current) b
      ≡ (contains previous b && not (contains current b))
unfolding departed_areas
contains-departed_areas previous current b =
    contains-filter (λ a. not (contains current a)) previous b

module _ (c : Connection) (u : String) (t : ℕ) (captured : Option ℕ) (current : List ℕ) where
  -- `db₀` is as the lock found it, `db` after the dedup gate, `db₁` after the loop.
  module _ (db₀ db : Database) (out : List ℕ) (db₁ db' : Database) (same : SameButState db₀ db)
      (h : IsEntered c u t captured (entered_areas (area_ids_of u db₀.presence) current) db out db₁)
      (kept : SameButPresence db₁ db')
      (gone : (v : String) (b : ℕ)
        → is_present v b db'.presence ≡ (
            is_present v b db₁.presence
            && not
                (u == v && contains (departed_areas (area_ids_of u db₀.presence) current) b))) where
    entered_exactly :
        (b : ℕ) → contains out b ≡ (contains current b && not (is_present u b db₀.presence))
    entered_exactly b = ground (
      arith,
      h.exact b,
      same.presence,
      contains-entered_areas (area_ids_of u db₀.presence) current b,
      contains-area_ids_of u b db₀.presence,
    )

    after_loop :
        (v : String) (b : ℕ)
        → is_present v b db₁.presence ≡ (is_present v b db₀.presence || (u == v && contains out b))
    after_loop v b =
        ap (λ d. is_present v b d.presence) h.tables
        ∙ is_present-append v b db.presence _
        ∙ ground (arith, is_present-map_row u v t b out, same.presence)

    IsTransition-compose : IsTransition c u t captured current db₀ out db'
    IsTransition-compose = record {
      presence = λ v b. ground (
        arith,
        gone v b,
        after_loop v b,
        entered_exactly b,
        eq_iff u v,
        contains-departed_areas (area_ids_of u db₀.presence) current b,
        contains-area_ids_of u b db₀.presence,
      );
      entered = entered_exactly;
      distinct = h.distinct;
      logs =
          kept.logs
          ∙ ap (λ d. d.logs) h.tables
          ∙ ap (λ l. l ++ map (log_row c u t captured) out) same.logs;
      area_ids = kept.area_ids ∙ ap (λ d. d.area_ids) h.tables ∙ same.area_ids;
    }

  write_transition-IsTransition :
      (db₀ db : Database) {outcome : Outcome} {db' : Database}
      → SameButState db₀ db
      → write_transition c u t captured current (area_ids_of u db₀.presence) db ≡ ok (outcome, db')
      → IsTransition c u t captured current db₀ outcome.response.entered_area_ids db'
        × (outcome.response.duplicate ≡ false)
  unfolding write_transition
  write_transition-IsTransition db₀ db {outcome} {db'} same h =
      let previous = area_ids_of u db₀.presence in
      let (out, db₁, loop, h₁) =
        >>=-eq-ok (enter_areas c u t captured (entered_areas previous current)) _ db h in
      let (x, db₂, left, h₂) = >>=-eq-ok (depart c u (departed_areas previous current)) _ db₁ h₁ in
      let (answer, final) = returned h₂ in
      let (kept, gone) = depart-eq-ok c u (departed_areas previous current) db₁ left in
      subst
        (λ d.
          IsTransition c u t captured current db₀ outcome.response.entered_area_ids d
          × (outcome.response.duplicate ≡ false))
        final
        (subst
          (λ (o : Outcome).
            IsTransition c u t captured current db₀ o.response.entered_area_ids db₂
            × (o.response.duplicate ≡ false))
          answer
          (
            IsTransition-compose db₀ db out db₁ db₂ same
                (enter_areas-IsEntered c u t captured (entered_areas previous current) db loop) kept
                gone,
            refl,
          ))

-- The dedup gate writes to nothing but its own table, and a duplicate not even there.
dedup-eq-ok :
    (c : Connection) (dto : ReportLocationDto) (t : ℕ) (db : Database) {duplicate : Bool}
    {db' : Database}
    → dedup c dto t db ≡ ok (duplicate, db')
    → SameButState db db' × ((duplicate ≡ false) ⊎ (db' ≡ db))
unfolding dedup dedup_device
dedup-eq-ok c dto t db h = (ground arith, ground arith)

lock-eq-ok :
    (c : Connection) (u : String) (db : Database) {previous : List ℕ} {db' : Database}
    → lock_user_and_read_presence c u db ≡ ok (previous, db')
    → (previous ≡ area_ids_of u db.presence) × (db' ≡ db)
unfolding lock_user_and_read_presence
lock-eq-ok c u db h = (ground arith, ground arith)

-- What a transaction that succeeds has done: nothing, for a duplicate, and else one transition.
pub record IsDuplicate (db : Database) (outcome : Outcome) (db' : Database) : Type 0 where
  pub duplicate : outcome.response.duplicate ≡ true
  pub nothing_entered : outcome.response.entered_area_ids ≡ []
  pub unchanged : db' ≡ db

pub transition-eq-ok :
    (c : Connection) (dto : ReportLocationDto) (t : ℕ) (captured : Option ℕ) (current : List ℕ)
    (db : Database) {outcome : Outcome} {db' : Database}
    → transition c dto t captured current db ≡ ok (outcome, db')
    → IsDuplicate db outcome db'
      ⊎ (IsTransition c dto.user_id t captured current db outcome.response.entered_area_ids db'
          × (outcome.response.duplicate ≡ false))
unfolding transition
transition-eq-ok c dto t captured current db {outcome} {db'} h =
    let (previous, db₀, locked, h₁) =
      >>=-eq-ok (lock_user_and_read_presence c dto.user_id) _ db h in
    let (duplicate, db₁, gate, h₂) = >>=-eq-ok (dedup c dto t) _ db₀ h₁ in
    let (read, same₀) = lock-eq-ok c dto.user_id db locked in
    let (same₁, or_unchanged) = dedup-eq-ok c dto t db₀ gate in
    go previous db₀ duplicate db₁ read same₀ same₁ or_unchanged h₂
  where
    go :
        (previous : List ℕ) (db₀ : Database) (duplicate : Bool) (db₁ : Database)
        → previous ≡ area_ids_of dto.user_id db.presence
        → db₀ ≡ db
        → SameButState db₀ db₁
        → (duplicate ≡ false) ⊎ (db₁ ≡ db₀)
        → (if duplicate
              then pure already_processed
              else write_transition c dto.user_id t captured current previous)
            db₁
          ≡ ok (outcome, db')
        → IsDuplicate db outcome db'
          ⊎ (IsTransition c dto.user_id t captured current db outcome.response.entered_area_ids db'
              × (outcome.response.duplicate ≡ false))
    go previous db₀ true db₁ read same₀ same₁ (inl e) r = cc
    go previous db₀ true db₁ read same₀ same₁ (inr e) r = inl (record {
      duplicate = ground arith;
      nothing_entered = ground arith;
      unchanged = ground arith;
    })
    go previous db₀ false db₁ read same₀ same₁ _ r = inr (
        write_transition-IsTransition c dto.user_id t captured current db db₁
          (subst (λ d. SameButState d db₁) same₀ same₁)
          (subst (λ p. write_transition c dto.user_id t captured current p db₁ ≡ ok (outcome, db'))
            read r))
