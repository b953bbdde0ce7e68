-- ===== src/Logs.antt =====
-- src/logs: the pages of GET /logs. PostgreSQL's texts of a time and of a uuid, and JSON in base64url,
-- are parameters.
pub mod Cursor
pub mod Descending
pub mod Walking
pub mod Complete
pub mod Inserting
use geofence_location.Prelude.{
  take, ℕ, zero, suc, ◌+◌, String, Bool, true, false, not, ◌&&◌, ◌||◌, ◌==◌, Option, none, some,
  List, [], ◌∷◌, ◌++◌, ltb, leb, eqb, length, filter, if◌then◌else◌,
}
use geofence_location.Database.{LogRow}
use geofence_location.Logs.Cursor.{LogsCursor, Codec, encode_logs_cursor, decode_logs_cursor}

pub record ListLogsQuery : Type 0 where
  pub user_id : Option String
  pub area_id : Option ℕ
  pub from : Option ℕ
  pub to : Option ℕ
  pub cursor : Option String
  pub limit : ℕ

-- How PostgreSQL writes and reads `timestamptz` and `uuid`.
pub record Postgres : Type 0 where
  pub timestamp_text : ℕ → String
  pub uuid_text : ℕ → String
  pub read_timestamp : String → ℕ
  pub read_uuid : String → ℕ

-- a position in the order (recorded_at, id)
pub record Key : Type 0 where
  pub recorded_at : ℕ
  pub id : ℕ

abbrev pub key_of : LogRow → Key
key_of row = record { recorded_at = row.recorded_at; id = row.id }

-- `(recorded_at, id) < (a, b)`, by rows
unfoldable pub precedes : Key → Key → Bool
precedes a b = ltb a.recorded_at b.recorded_at || (eqb a.recorded_at b.recorded_at && ltb a.id b.id)

abbrev pub passes {ℓ} : {A : Type ℓ} → (A → Bool) → Option A → Bool
passes test none = true
passes test (some a) = test a

-- the conditions but the cursor's
unfoldable pub meets : ListLogsQuery → LogRow → Bool
meets query row =
    passes (λ u. row.user_id == u) query.user_id
    && passes (λ a. eqb row.area_id a) query.area_id
    && passes (λ t. leb t row.recorded_at) query.from
    && passes (λ t. leb row.recorded_at t) query.to

-- the condition of the cursor
abbrev pub is_past : Option Key → LogRow → Bool
is_past position row = passes (λ k. precedes (key_of row) k) position

unfoldable pub insert_row : LogRow → List LogRow → List LogRow
insert_row row [] = row ∷ []
insert_row row (other ∷ rows) =
    let later = insert_row row rows in
    if precedes (key_of other) (key_of row) then row ∷ other ∷ rows else other ∷ later

-- ORDER BY "recorded_at" DESC, "id" DESC
unfoldable pub newest_first : List LogRow → List LogRow
unfolding insert_row
newest_first [] = []
newest_first (row ∷ rows) = insert_row row (newest_first rows)

-- the rows of the table that the WHERE clause lets pass, in that order
unfoldable pub selected : ListLogsQuery → Option Key → List LogRow → List LogRow
unfolding precedes meets newest_first
selected query position rows = filter (is_past position) (filter (meets query) (newest_first rows))

abbrev pub last : List LogRow → Option LogRow
last [] = none
last (row ∷ []) = some row
last (row ∷ other ∷ rows) = last (other ∷ rows)

pub record LogsPage : Type 0 where
  pub items : List LogRow
  pub next_cursor : Option String

abbrev pub cursor_of : Codec → Postgres → Option LogRow → Option String
cursor_of codec postgres none = none
cursor_of codec postgres (some row) = some (
    encode_logs_cursor codec (record {
      recorded_at = postgres.timestamp_text row.recorded_at;
      id = postgres.uuid_text row.id;
    }))

-- what follows the query, which fetches one row more than the limit
unfoldable pub page_of : Codec → Postgres → ℕ → List LogRow → LogsPage
page_of codec postgres limit rows =
    let has_more = ltb limit (length rows) in
    let page = if has_more then take limit rows else rows in
    record {
      items = page;
      next_cursor = if has_more then cursor_of codec postgres (last page) else none;
    }

-- the cursor of a query as a position; `none` for the 400
unfoldable pub position_of : Codec → Postgres → Option String → Option (Option Key)
unfolding decode_logs_cursor
position_of codec postgres none = some none
position_of codec postgres (some raw) = elim (decode_logs_cursor codec raw) [
  | none ↦ none
  | some cursor ↦ some (
      some (record {
        recorded_at = postgres.read_timestamp cursor.recorded_at;
        id = postgres.read_uuid cursor.id;
      }))
]

-- LogsService.list
unfoldable pub list : Codec → Postgres → ListLogsQuery → List LogRow → Option LogsPage
unfolding selected page_of position_of
list codec postgres query table = elim (position_of codec postgres query.cursor) [
  | none ↦ none
  | some position ↦
      some (
        page_of codec postgres query.limit (take (suc query.limit) (selected query position table)))
]
