-- ===== src/Logs/Walking.antt =====
-- One page of src/logs/logs.service.ts and the rows behind it.
use mathlib.Core.Option.{some_inj}
use geofence_location.Prelude.{
  take, ℕ, zero, suc, ◌≤◌, ◌<◌, ◌≡◌, ◌⊎◌, inl, inr, refl, ◌∙◌, ap, subst, Bool, true, false, Option,
  none, some, List, [], ◌∷◌, ◌++◌, ltb, All, length, filter, arith, Bool-cases,
}
use geofence_location.Database.{LogRow}
use geofence_location.Areas.GeoJson.{text, array, nil, cons}
use geofence_location.Logs.Cursor.{
  Codec, is_uuid, is_timestamptz_text, encode_logs_cursor, decode_logs_cursor, cursor_of_value,
}
use geofence_location.Logs.{
  Postgres, Key, key_of, precedes, is_past, last, cursor_of, page_of, position_of,
}
use geofence_location.Logs.Descending.{
  IsDescending, AllPrecede, precedes_trans, precedes_asym, precedes_irrefl,
}

-- The texts of a row's time and id are as documented: of the form that the patterns ask for, and
-- read back as they were.
pub record IsTextual (codec : Codec) (postgres : Postgres) (row : LogRow) : Type 0 where
  pub read_back :
      codec.read (codec.write (postgres.timestamp_text row.recorded_at) (postgres.uuid_text row.id))
      ≡ some (
          array (
            cons
              (text (postgres.timestamp_text row.recorded_at))
              (cons (text (postgres.uuid_text row.id)) nil)))
  pub timestamp : is_timestamptz_text (postgres.timestamp_text row.recorded_at) ≡ true
  pub uuid : is_uuid (postgres.uuid_text row.id) ≡ true
  pub read_timestamp :
      postgres.read_timestamp (postgres.timestamp_text row.recorded_at) ≡ row.recorded_at
  pub read_uuid : postgres.read_uuid (postgres.uuid_text row.id) ≡ row.id

module _ (codec : Codec) (postgres : Postgres) where
  -- the cursor of a row is its key
  pub position_of-cursor_of :
      (row : LogRow)
      → IsTextual codec postgres row
      → position_of codec postgres (cursor_of codec postgres (some row)) ≡ some (some (key_of row))
  unfolding position_of decode_logs_cursor cursor_of_value encode_logs_cursor
  position_of-cursor_of row h =
      ground (arith, h.read_back, h.timestamp, h.uuid, h.read_timestamp, h.read_uuid)

-- behind the last row of a page come the rows that were left
filter-all :
    (row : LogRow) (rows : List LogRow)
    → AllPrecede row rows
    → filter (is_past (some (key_of row))) rows ≡ rows
filter-all row [] h = refl
filter-all row (other ∷ rows) h = ground (arith, h.0, filter-all row rows h.1)

take-last :
    (n : ℕ) (row : LogRow) (rows : List LogRow)
    → (r : LogRow) × (last (take (suc n) (row ∷ rows)) ≡ some r)
take-last zero row rows = (row, refl)
take-last (suc n) row [] = (row, refl)
take-last (suc n) row (other ∷ rows) = take-last n other rows

pub All-last {κ} :
    (P : LogRow → Type κ) (n : ℕ) (rows : List LogRow) (r : LogRow)
    → All P rows
    → last (take n rows) ≡ some r
    → P r
All-last P zero rows r h e = cc
All-last P (suc n) [] r h e = cc
All-last P (suc zero) (row ∷ rows) r h e = subst P (some_inj.0 e) h.0
All-last P (suc (suc n)) (row ∷ []) r h e = subst P (some_inj.0 e) h.0
All-last P (suc (suc n)) (row ∷ other ∷ rows) r h e = All-last P (suc n) (other ∷ rows) r h.1 e

page-split_one :
    (row : LogRow) (rows : List LogRow) (r : LogRow)
    → AllPrecede row rows
    → row ≡ r
    → row ∷ rows ≡ row ∷ filter (is_past (some (key_of r))) (row ∷ rows)
page-split_one row rows r h same =
    subst (λ x. row ∷ rows ≡ row ∷ filter (is_past (some (key_of x))) (row ∷ rows)) same
      (ground (arith, precedes_irrefl (key_of row), filter-all row rows h))

page-split_more :
    (n : ℕ) (row : LogRow) (rows : List LogRow) (r : LogRow)
    → precedes (key_of row) (key_of r) ≡ false
    → rows ≡ take n rows ++ filter (is_past (some (key_of r))) rows
    → row ∷ rows ≡ row ∷ (take n rows ++ filter (is_past (some (key_of r))) (row ∷ rows))
page-split_more n row rows r later e = ap (λ l. row ∷ l) (e ∙ rw later refl)

pub page-split :
    (n : ℕ) (rows : List LogRow) (r : LogRow)
    → IsDescending rows
    → last (take n rows) ≡ some r
    → rows ≡ take n rows ++ filter (is_past (some (key_of r))) rows
page-split zero rows r h e = cc
page-split (suc n) [] r h e = cc
page-split (suc zero) (row ∷ rows) r h e = page-split_one row rows r h.0 (some_inj.0 e)
page-split (suc (suc n)) (row ∷ []) r h e = page-split_one row [] r tt (some_inj.0 e)
page-split (suc (suc n)) (row ∷ other ∷ rows) r h e =
    page-split_more (suc n) row (other ∷ rows) r
      (precedes_asym (key_of r) (key_of row)
        (All-last (λ x. precedes (key_of x) (key_of row) ≡ true) (suc n) (other ∷ rows) r h.0 e))
      (page-split (suc n) (other ∷ rows) r h.1 e)

-- a later position replaces an earlier one
pub filter-later :
    (position : Option Key) (r : LogRow) (rows : List LogRow)
    → is_past position r ≡ true
    → filter (is_past (some (key_of r))) (filter (is_past position) rows)
      ≡ filter (is_past (some (key_of r))) rows
filter-later none r rows e = ap (λ l. filter (is_past (some (key_of r))) l) (all rows)
  where
    all : (rows : List LogRow) → filter (is_past none) rows ≡ rows
    all [] = refl
    all (row ∷ rows) = ap (λ l. row ∷ l) (all rows)
filter-later (some k) r [] e = refl
filter-later (some k) r (row ∷ rows) e = elim (Bool-cases (precedes (key_of row) (key_of r))) [
  | inl before ↦
      ground
        (arith, precedes_trans (key_of row) (key_of r) k before e, filter-later (some k) r rows e)
  | inr after ↦ elim (Bool-cases (precedes (key_of row) k)) [
    | inl kept ↦ ground (arith, filter-later (some k) r rows e)
    | inr dropped ↦ ground (arith, filter-later (some k) r rows e)
  ]
]

pub filter-passes :
    (test : LogRow → Bool) (rows : List LogRow) → All (λ row. test row ≡ true) (filter test rows)
filter-passes test [] = tt
filter-passes test (row ∷ rows) = elim (Bool-cases (test row)) [
  | inl kept ↦ rw kept (kept, filter-passes test rows)
  | inr dropped ↦ rw dropped (filter-passes test rows)
]

take-take : (n : ℕ) (rows : List LogRow) → take n (take (suc n) rows) ≡ take n rows
take-take zero rows = refl
take-take (suc n) [] = refl
take-take (suc n) (row ∷ rows) = ap (λ l. row ∷ l) (take-take n rows)

take-all : (n : ℕ) (rows : List LogRow) → length (take (suc n) rows) ≤ n → take (suc n) rows ≡ rows
take-all n [] h = refl
take-all zero (row ∷ rows) h = absurd (omega arith)
take-all (suc n) (row ∷ rows) h = ap (λ l. row ∷ l) (take-all n rows (omega (arith, h)))

module _ (codec : Codec) (postgres : Postgres) where
  page_of-fits :
      (n : ℕ) (rows : List LogRow)
      → ltb n (length rows) ≡ false
      → page_of codec postgres n rows ≡ record { items = rows; next_cursor = none }
  unfolding page_of
  page_of-fits n rows h = ground arith

  page_of-more :
      (n : ℕ) (rows : List LogRow)
      → ltb n (length rows) ≡ true
      → page_of codec postgres n rows ≡ record {
        items = take n rows;
        next_cursor = cursor_of codec postgres (last (take n rows));
      }
  unfolding page_of
  page_of-more n rows h = rw h refl

  -- a page is the last, or it ends with a row whose key its cursor is
  pub page_of-cases :
      (n : ℕ) (rows : List LogRow)
      → 0 < n
      → (page_of codec postgres n (take (suc n) rows) ≡ record { items = rows; next_cursor = none })
        ⊎ ((r : LogRow) × (last (take n rows) ≡ some r)
            × (page_of codec postgres n (take (suc n) rows)
                ≡ record { items = take n rows; next_cursor = cursor_of codec postgres (some r) }))
  page_of-cases zero rows positive = absurd (omega arith)
  page_of-cases (suc n) [] positive = inl (page_of-fits (suc n) [] (ground arith))
  page_of-cases (suc n) (row ∷ rows) positive =
      elim (Bool-cases (ltb (suc n) (length (take (suc (suc n)) (row ∷ rows))))) [
        | inr fits ↦
            let all = take-all (suc n) (row ∷ rows) (ground arith) in
            inl (
              page_of-fits (suc n) (take (suc (suc n)) (row ∷ rows)) fits
              ∙ ap (λ l. record { items = l; next_cursor = none }) all)
        | inl more ↦
            let (r, ends) = take-last n row rows in
            let same = take-take (suc n) (row ∷ rows) in
            inr (
              r,
              ends,
              page_of-more (suc n) (take (suc (suc n)) (row ∷ rows)) more
                  ∙ ap (λ l. record { items = l; next_cursor = cursor_of codec postgres (last l) })
                      same
                  ∙ ap
                      (λ o. record {
                        items = take (suc n) (row ∷ rows);
                        next_cursor = cursor_of codec postgres o;
                      })
                      ends,
            )
      ]
