-- ===== src/Database.antt =====
-- The PostgreSQL tables of src/migrations and the SQL statements that the services send to them.
-- A statement may fail: the environment says which ones do, with the driver's error. The schema's
-- own refusals (a foreign key, a primary key) are part of the statements.
-- A uuid is the 128-bit number that it denotes: its canonical text orders the same way.
-- Times are milliseconds.
pub mod Laws
pub mod Growing
use geofence_location.Prelude.{
  ℕ, String, Bool, true, false, not, Option, none, some, List, [], ◌∷◌, ◌++◌, ◌&&◌, ◌||◌, ◌==◌, eqb,
  contains, filter, if◌then◌else◌,
}

-- `driverError` of a failed query: its SQLSTATE and, for a constraint, the constraint's name.
pub record DriverError : Type 0 where
  pub code : String
  pub constraint : Option String

-- What a service can throw.
pub data Failure : Type 0 where
  unprocessable : Failure
  snapshot_not_built : Failure
  query_failed : DriverError → Failure

pub data Result {ℓ} (A : Type ℓ) : Type ℓ where
  ok : A → Result A
  err : Failure → Result A

pub record PresenceRow : Type 0 where
  pub user_id : String
  pub area_id : ℕ
  pub entered_at : ℕ
  pub last_seen_at : ℕ

pub record LogRow : Type 0 where
  pub id : ℕ
  pub user_id : String
  pub area_id : ℕ
  pub recorded_at : ℕ
  pub captured_at : Option ℕ

pub record EventStateRow : Type 0 where
  pub user_id : String
  pub device_id : String
  pub last_seq : ℕ
  pub last_event_at : ℕ

pub record Database : Type 0 where
  pub area_ids : List ℕ
  pub presence : List PresenceRow
  pub logs : List LogRow
  pub event_state : List EventStateRow

-- The statements that can fail on their own, each with what tells one run of it from another.
pub data Statement : Type 0 where
  read_presence lock_and_read read_state write_state delete_presence commit : Statement
  insert_presence insert_log : ℕ → Statement

-- A connection: the statements that fail, and the ids that `gen_random_uuid()` gives to log rows.
pub record Connection : Type 0 where
  pub fault : Statement → Option DriverError
  pub log_id : ℕ → ℕ

-- A block of statements on one connection: a failure ends it, and leaves no state behind.
abbrev pub Tx : Type 0 → Type 0
Tx A = Database → Result (A × Database)

abbrev pub pure : {A : Type 0} → A → Tx A
pure a db = ok (a, db)

infixl 5 ◌>>=◌ ◌>>◌
abbrev pub ◌>>=◌ : {A B : Type 0} → Tx A → (A → Tx B) → Tx B
◌>>=◌ m f db = elim (m db) [ ok (a, db') ↦ f a db' | err e ↦ err e ]

abbrev pub ◌>>◌ : {B : Type 0} → Tx (Unit {0}) → Tx B → Tx B
m >> k = m >>= λ _. k

abbrev pub fails : Option DriverError → Tx (Unit {0})
fails none db = ok (tt, db)
fails (some e) db = err (query_failed e)

-- SELECT "area_id" FROM "user_area_presence" WHERE "user_id" = $1
unfoldable pub area_ids_of : String → List PresenceRow → List ℕ
area_ids_of u [] = []
area_ids_of u (r ∷ rows) =
    let rest = area_ids_of u rows in if r.user_id == u then r.area_id ∷ rest else rest

-- SELECT "area_id" FROM lock_user_and_read_presence($1)
unfoldable pub lock_user_and_read_presence : Connection → String → Tx (List ℕ)
lock_user_and_read_presence c u = do
  fails (c.fault lock_and_read)
  λ db. ok (area_ids_of u db.presence, db)

-- SELECT "last_seq" FROM "user_event_state" WHERE "user_id" = $1 AND "device_id" = $2
unfoldable pub find_state : String → String → List EventStateRow → Option ℕ
find_state u d [] = none
find_state u d (r ∷ rows) =
    let rest = find_state u d rows in
    if r.user_id == u && r.device_id == d then some r.last_seq else rest

-- INSERT INTO "user_event_state" … ON CONFLICT ("user_id", "device_id") DO UPDATE
unfoldable pub upsert_state : String → String → ℕ → ℕ → List EventStateRow → List EventStateRow
upsert_state u d n t [] =
    record { user_id = u; device_id = d; last_seq = n; last_event_at = t } ∷ []
upsert_state u d n t (r ∷ rows) =
    let rest = r ∷ upsert_state u d n t rows in
    let updated = record r { last_seq = n; last_event_at = t } ∷ rows in
    if r.user_id == u && r.device_id == d then updated else rest

-- the primary key ("user_id", "area_id") is taken
unfoldable pub is_present : String → ℕ → List PresenceRow → Bool
is_present u a [] = false
is_present u a (r ∷ rows) = (r.user_id == u && eqb r.area_id a) || is_present u a rows

abbrev pub presence_row : String → ℕ → ℕ → PresenceRow
presence_row u t a = record { user_id = u; area_id = a; entered_at = t; last_seen_at = t }

abbrev pub presence_area_violation : DriverError
presence_area_violation = record { code = "23503"; constraint = some "fk_presence_area" }

-- INSERT INTO "user_area_presence" … ON CONFLICT DO NOTHING RETURNING "area_id": true for a row.
unfoldable pub insert_presence_row : Connection → String → ℕ → ℕ → Tx Bool
insert_presence_row c u a t = do
  fails (c.fault (insert_presence a))
  λ db.
      if is_present u a db.presence
      then ok (false, db)
      else if contains db.area_ids a
      then ok (true, record db { presence = db.presence ++ presence_row u t a ∷ [] })
      else err (query_failed presence_area_violation)

abbrev pub log_row : Connection → String → ℕ → Option ℕ → ℕ → LogRow
log_row c u t captured a = record {
  id = c.log_id a;
  user_id = u;
  area_id = a;
  recorded_at = t;
  captured_at = captured;
}

abbrev pub logs_area_violation : DriverError
logs_area_violation = record { code = "23503"; constraint = some "fk_logs_area" }

-- INSERT INTO "logs"
unfoldable pub insert_log_row : Connection → String → ℕ → ℕ → Option ℕ → Tx (Unit {0})
insert_log_row c u a t captured = do
  fails (c.fault (insert_log a))
  λ db.
      if contains db.area_ids a
      then ok (tt, record db { logs = db.logs ++ log_row c u t captured a ∷ [] })
      else err (query_failed logs_area_violation)

-- DELETE FROM "user_area_presence" WHERE "user_id" = $1 AND "area_id" = ANY($2)
unfoldable pub delete_presence_rows : Connection → String → List ℕ → Tx (Unit {0})
delete_presence_rows c u areas = do
  fails (c.fault delete_presence)
  λ db. ok (
    tt,
    record db {
      presence = filter (λ r. not (r.user_id == u && contains areas r.area_id)) db.presence;
    },
  )

-- dataSource.transaction: COMMIT may fail too; after a failure the tables are as they were.
unfoldable pub transaction : {A : Type 0} → Connection → Tx A → Tx A
transaction c body = do result ← body; fails (c.fault commit); pure result
