-- ===== src/Database/Laws.antt =====
-- Laws of the statements: presence read as membership, and inversion of a block that succeeded.
use geofence_location.Prelude.{
  ℕ, String, ◌≡◌, refl, not, ◌&&◌, ◌||◌, List, [], ◌∷◌, ◌++◌, map, arith, ◌==◌, eq_iff, contains,
  filter,
}
use geofence_location.Database.{
  Database, Result, ok, err, PresenceRow, Tx, ◌>>=◌, area_ids_of, is_present, presence_row,
}

pub >>=-eq-ok :
    {A B : Type 0} (m : Tx A) (f : A → Tx B) (db : Database) {b : B} {db₂ : Database}
    → (m >>= f) db ≡ ok (b, db₂)
    → (a : A) × (db₁ : Database) × (m db ≡ ok (a, db₁)) × (f a db₁ ≡ ok (b, db₂))
>>=-eq-ok {A} m f db {b} {db₂} = go (m db) refl
  where
    go :
        (r : Result (A × Database))
        → m db ≡ r
        → (elim r [ ok (a, db') ↦ f a db' | err e ↦ err e ]) ≡ ok (b, db₂)
        → (a : A) × (db₁ : Database) × (m db ≡ ok (a, db₁)) × (f a db₁ ≡ ok (b, db₂))
    go (ok (a, db₁)) e h = (a, db₁, e, h)
    go (err x) e h = cc

pub returned :
    {A : Type 0} {a b : A} {db db' : Database}
    → ◌≡◌ {A = Result (A × Database)} (ok (a, db)) (ok (b, db'))
    → (a ≡ b) × (db ≡ db')
returned h = (cc, cc)

pub contains-area_ids_of :
    (u : String) (a : ℕ) (rows : List PresenceRow)
    → contains (area_ids_of u rows) a ≡ is_present u a rows
unfolding area_ids_of is_present
contains-area_ids_of u a [] = refl
contains-area_ids_of u a (r ∷ rows) = ground (arith, contains-area_ids_of u a rows)

pub is_present-append :
    (v : String) (b : ℕ) (rows more : List PresenceRow)
    → is_present v b (rows ++ more) ≡ (is_present v b rows || is_present v b more)
unfolding is_present
is_present-append v b [] more = refl
is_present-append v b (r ∷ rows) more = ground (arith, is_present-append v b rows more)

pub is_present-map_row :
    (u v : String) (t b : ℕ) (areas : List ℕ)
    → is_present v b (map (presence_row u t) areas) ≡ (u == v && contains areas b)
unfolding is_present
is_present-map_row u v t b [] = ground arith
is_present-map_row u v t b (a ∷ areas) = ground (arith, is_present-map_row u v t b areas)

pub is_present-delete :
    (u v : String) (b : ℕ) (areas : List ℕ) (rows : List PresenceRow)
    → is_present v b (filter (λ r. not (r.user_id == u && contains areas r.area_id)) rows)
      ≡ (is_present v b rows && not (u == v && contains areas b))
unfolding is_present
is_present-delete u v b areas [] = refl
is_present-delete u v b areas (r ∷ rows) =
    ground (
      arith,
      eq_iff r.user_id u,
      eq_iff r.user_id v,
      eq_iff u v,
      is_present-delete u v b areas rows,
    )
