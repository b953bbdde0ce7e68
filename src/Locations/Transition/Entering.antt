-- ===== src/Locations/Transition/Entering.antt =====
-- The loop that enters areas: what its presence rows, its log rows and its result are.
use mathlib.Core.Path.{subst₂}
use mathlib.Core.List.{append-nil, append_assoc}
use geofence_location.Prelude.{
  ℕ, ◌<◌, String, ◌≡◌, refl, Bool, true, false, not, ◌&&◌, Option, List, [], ◌∷◌, ◌++◌, map, arith,
  ◌∙◌, subst, eq_refl, eqb, ◌||◌, contains, All-contains, All-of_contains, IsDistinct, IsAscending,
  if◌then◌else◌,
}
use geofence_location.Database.Laws.{>>=-eq-ok, is_present-append, returned}
use geofence_location.Database.{
  Database, Connection, ok, is_present, presence_row, log_row, insert_presence_row, insert_log_row,
}
use geofence_location.Locations.Transition.{enter_area, enter_areas}

module _ (c : Connection) (u : String) (t : ℕ) (captured : Option ℕ) where
  abbrev pub entered_database : Database → List ℕ → Database
  entered_database db out = record db {
    presence = db.presence ++ map (presence_row u t) out;
    logs = db.logs ++ map (log_row c u t captured) out;
  }

  enter_area-eq-ok :
      (a : ℕ) (db : Database) {inserted : Bool} {db' : Database}
      → enter_area c u t captured a db ≡ ok (inserted, db')
      → (inserted ≡ not (is_present u a db.presence))
        × (db' ≡ (if inserted then entered_database db (a ∷ []) else db))
  unfolding enter_area insert_presence_row insert_log_row
  enter_area-eq-ok a db h = (ground arith, ground arith)

  pub record IsEntered (areas : List ℕ) (db : Database) (out : List ℕ) (db' : Database)
      : Type 0 where
    pub tables : db' ≡ entered_database db out
    pub exact : (b : ℕ) → contains out b ≡ (contains areas b && not (is_present u b db.presence))
    pub distinct : IsDistinct out
    pub ascending : IsAscending areas → IsAscending out

  IsEntered-skip :
      (a : ℕ) (more : List ℕ) (db : Database) (out : List ℕ) (db' : Database)
      → is_present u a db.presence ≡ true
      → IsEntered more db out db'
      → IsEntered (a ∷ more) db out db'
  IsEntered-skip a more db out db' old h = record {
    tables = h.tables;
    exact = λ b. ground (arith, h.exact b);
    distinct = h.distinct;
    ascending = λ up. h.ascending up.1;
  }

  IsEntered-add :
      (a : ℕ) (more : List ℕ) (db : Database) (out : List ℕ) (db' : Database)
      → is_present u a db.presence ≡ false
      → IsEntered more (entered_database db (a ∷ [])) out db'
      → IsEntered (a ∷ more) db (a ∷ out) db'
  IsEntered-add a more db out db' fresh h = record {
    tables = h.tables ∙ simp append_assoc;
    exact = λ b. ground (arith, h.exact b, entered b);
    distinct = (ground (arith, h.exact a, entered a), h.distinct);
    ascending = λ up. (
      All-of_contains (λ y. a < y) out
          (λ b e. All-contains (λ y. a < y) more b up.0 (ground (arith, h.exact b))),
      h.ascending up.1,
    );
  }
    where
      entered :
          (b : ℕ)
          → is_present u b (db.presence ++ presence_row u t a ∷ [])
            ≡ (is_present u b db.presence || eqb a b)
      entered b =
          is_present-append u b db.presence _ ∙ (unfold is_present in ground (arith, eq_refl u))

  IsEntered-round :
      (a : ℕ) (more : List ℕ) (db : Database) (inserted : Bool) (db₁ : Database) (out : List ℕ)
      (db' : Database)
      → inserted ≡ not (is_present u a db.presence)
      → db₁ ≡ (if inserted then entered_database db (a ∷ []) else db)
      → IsEntered more db₁ out db'
      → IsEntered (a ∷ more) db (if inserted then a ∷ out else out) db'
  IsEntered-round a more db true db₁ out db' e e₁ h =
      IsEntered-add a more db out db' (ground arith) (subst (λ d. IsEntered more d out db') e₁ h)
  IsEntered-round a more db false db₁ out db' e e₁ h =
      IsEntered-skip a more db out db' (ground arith) (subst (λ d. IsEntered more d out db') e₁ h)

  -- What the loop has done when it succeeds: the rows that it wrote are those of its result, which
  -- holds each wanted area that was not present, once.
  pub enter_areas-IsEntered :
      (areas : List ℕ) (db : Database) {out : List ℕ} {db' : Database}
      → enter_areas c u t captured areas db ≡ ok (out, db')
      → IsEntered areas db out db'
  unfolding enter_areas
  enter_areas-IsEntered [] db {out} {db'} h =
      let (same, kept) = returned h in
      subst₂ (IsEntered [] db) same kept
        (record { tables = simp append-nil; exact = λ b. refl; distinct = tt; ascending = λ _. tt })
  enter_areas-IsEntered (a ∷ more) db {out} {db'} h =
      let (inserted, db₁, one, h₁) = >>=-eq-ok (enter_area c u t captured a) _ db h in
      let (rest, db₂, later, h₂) = >>=-eq-ok (enter_areas c u t captured more) _ db₁ h₁ in
      let (e, e₁) = enter_area-eq-ok a db one in
      let (same, kept) = returned h₂ in
      subst₂ (IsEntered (a ∷ more) db) same kept (
        IsEntered-round a more db inserted db₁ rest db₂ e e₁ (enter_areas-IsEntered more db₁ later))
