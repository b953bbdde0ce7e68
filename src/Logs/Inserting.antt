-- ===== src/Logs/Inserting.antt =====
-- src/logs/logs.service.ts: walks through the pages while rows are inserted.
use mathlib.Core.List.{append_assoc}
use geofence_location.Prelude.{
  take, ℕ, zero, suc, ◌<◌, ◌≡◌, ◌⊎◌, inl, inr, refl, sym, ◌∙◌, ap, String, Bool, true, false,
  Option, none, some, List, [], ◌∷◌, ◌++◌, All, IsDistinct, length, map, filter, ltb, arith,
  Bool-cases,
}
use geofence_location.Database.{LogRow}
use geofence_location.Logs.Cursor.{Codec}
use geofence_location.Logs.{
  ListLogsQuery, Postgres, Key, key_of, precedes, meets, is_past, insert_row, newest_first,
  selected, last, cursor_of, page_of, position_of, list,
}
use geofence_location.Logs.Walking.{
  IsTextual, position_of-cursor_of, All-last, filter-passes, page_of-cases,
}
use geofence_location.Logs.Complete.{shorter, selected-All, selected-split, list-eq}

last_past :
    (query : ListLogsQuery) (k : Key) (table : List LogRow) (r : LogRow)
    → last (take query.limit (selected query (some k) table)) ≡ some r
    → precedes (key_of r) k ≡ true
unfolding selected
last_past query k table r ends =
    let base = filter (meets query) (newest_first table) in
    All-last (λ row. is_past (some k) row ≡ true) query.limit (filter (is_past (some k)) base) r
      (filter-passes (is_past (some k)) base) ends

-- The row was recorded after the position, or at its time with a larger id.
abbrev pub IsLater : Key → LogRow → Type 0
IsLater k row =
    (k.recorded_at < row.recorded_at) ⊎ ((k.recorded_at ≡ row.recorded_at) × (k.id < row.id))

not_past : (k : Key) (row : LogRow) → IsLater k row → precedes (key_of row) k ≡ false
unfolding precedes
not_past k row (inl after) = ground arith
not_past k row (inr (same, after)) = ground arith

IsLater-of_past :
    (k : Key) (r row : LogRow)
    → precedes (key_of r) k ≡ true
    → IsLater k row
    → IsLater (key_of r) row
unfolding precedes
IsLater-of_past k r row e (inl after) = inl (ground arith)
IsLater-of_past k r row e (inr (same, after)) =
    elim (Bool-cases (ltb r.recorded_at k.recorded_at)) [
      | inl earlier ↦ inl (ground arith)
      | inr together ↦ inr (ground arith, ground arith)
    ]

All-IsLater :
    (k : Key) (r : LogRow) (rows : List LogRow)
    → precedes (key_of r) k ≡ true
    → All (IsLater k) rows
    → All (IsLater (key_of r)) rows
All-IsLater k r [] e h = tt
All-IsLater k r (row ∷ rows) e h = (IsLater-of_past k r row e h.0, All-IsLater k r rows e h.1)

All-append : (P : LogRow → Type 0) (xs ys : List LogRow) → All P xs → All P ys → All P (xs ++ ys)
All-append P [] ys h k = k
All-append P (x ∷ xs) ys h k = (h.0, All-append P xs ys h.1 k)

module _ (test other : LogRow → Bool) (row : LogRow) (skipped : test row ≡ false) where
  filters-insert_row :
      (rows : List LogRow)
      → filter test (filter other (insert_row row rows)) ≡ filter test (filter other rows)
  unfolding insert_row
  filters-insert_row [] = ground arith
  filters-insert_row (r ∷ rows) = elim (Bool-cases (precedes (key_of r) (key_of row))) [
    | inl before ↦ ground arith
    | inr after ↦ ground (arith, filters-insert_row rows)
  ]

selected-later :
    (query : ListLogsQuery) (k : Key) (rows table : List LogRow)
    → All (IsLater k) rows
    → selected query (some k) (rows ++ table) ≡ selected query (some k) table
unfolding selected newest_first
selected-later query k [] table h = refl
selected-later query k (row ∷ rows) table h =
    filters-insert_row (is_past (some k)) (meets query) row (not_past k row h.0)
      (newest_first (rows ++ table))
    ∙ selected-later query k rows table h.1

module _ (codec : Codec) (postgres : Postgres) (inserted : ℕ → List LogRow) where
  -- The pages from a query on, as by `walk`; before the page from which at most `suc n` are left, the
  -- rows of `inserted n` come into the table.
  abbrev pub walk_during : ℕ → ListLogsQuery → List LogRow → Option (List LogRow)
  walk_during zero query table = none
  walk_during (suc n) query table = elim (list codec postgres query (inserted n ++ table)) [
    | none ↦ none
    | some page ↦ elim page.next_cursor [
      | none ↦ some page.items
      | some raw ↦ elim (walk_during n (record query { cursor = some raw }) (inserted n ++ table)) [
        | none ↦ none
        | some more ↦ some (page.items ++ more)
      ]
    ]
  ]

  during-last :
      (n : ℕ) (query : ListLogsQuery) (table items : List LogRow)
      → list codec postgres query (inserted n ++ table)
        ≡ some (record { items = items; next_cursor = none })
      → walk_during (suc n) query table ≡ some items
  during-last n query table items e = ground (arith, e)

  during-next :
      (n : ℕ) (query : ListLogsQuery) (table items more : List LogRow) (raw : String)
      → list codec postgres query (inserted n ++ table)
        ≡ some (record { items = items; next_cursor = some raw })
      → walk_during n (record query { cursor = some raw }) (inserted n ++ table) ≡ some more
      → walk_during (suc n) query table ≡ some (items ++ more)
  during-next n query table items more raw e rest = ground (arith, e, rest)

  module _ (table : List LogRow) (distinct : IsDistinct (map (λ row. row.id) table))
      (textual : All (IsTextual codec postgres) table) where
    page_during :
        (query : ListLogsQuery) (k : Key) (rows : List LogRow)
        → position_of codec postgres query.cursor ≡ some (some k)
        → All (IsLater k) rows
        → list codec postgres query (rows ++ table)
          ≡ some (
              page_of codec postgres query.limit
                (take (suc query.limit) (selected query (some k) table)))
    page_during query k rows e later =
        list-eq codec postgres query (some k) (rows ++ table) e
        ∙ ap (λ l. some (page_of codec postgres query.limit (take (suc query.limit) l)))
            (selected-later query k rows table later)

    -- A walk that goes on from a cursor, while before each page any rows are inserted that are later
    -- than this cursor, gives all the rows behind the cursor that were there and pass the filters,
    -- newest first, each once and none left out: what is inserted meanwhile shifts no page. The table
    -- has distinct ids, and PostgreSQL and the cursor write and read its times and ids back as
    -- documented.
    pub walk_during-eq-selected :
        (n : ℕ) (query : ListLogsQuery) (k : Key) (arrived : List LogRow)
        → 0 < query.limit
        → position_of codec postgres query.cursor ≡ some (some k)
        → All (IsLater k) arrived
        → ((i : ℕ) → All (IsLater k) (inserted i))
        → length (selected query (some k) table) < n
        → walk_during n query (arrived ++ table) ≡ some (selected query (some k) table)
    unfolding selected
    walk_during-eq-selected zero query k arrived positive e old later enough = absurd (omega arith)
    walk_during-eq-selected (suc n) query k arrived positive e old later enough =
        let rows = inserted n ++ arrived in
        let grown : All (IsLater k) rows =
          All-append (IsLater k) (inserted n) arrived (later n) old in
        let same : inserted n ++ (arrived ++ table) ≡ rows ++ table =
          sym (append_assoc (inserted n) arrived table) in
        let asked = ap (list codec postgres query) same ∙ page_during query k rows e grown in
        elim (page_of-cases codec postgres query.limit (selected query (some k) table) positive) [
          | inl whole ↦
              during-last n query (arrived ++ table) (selected query (some k) table)
                (asked ∙ ap some whole)
          | inr (r, ends, page) ↦
              let split = selected-split query (some k) table query.limit r distinct ends in
              let past = last_past query k table r ends in
              let rest =
                walk_during-eq-selected n
                  (record query { cursor = cursor_of codec postgres (some r) }) (key_of r) rows
                  positive
                  (position_of-cursor_of codec postgres r (
                    All-last (IsTextual codec postgres) query.limit (selected query (some k) table)
                      r (selected-All query (some k) table (IsTextual codec postgres) textual)
                      ends))
                  (All-IsLater k r rows past grown)
                  (λ i. All-IsLater k r (inserted i) past (later i))
                  (shorter (take query.limit (selected query (some k) table))
                    (selected query (some (key_of r)) table) r n split ends enough) in
              during-next n query (arrived ++ table)
                (take query.limit (selected query (some k) table))
                (selected query (some (key_of r)) table) _ (asked ∙ ap some page)
                (ap (walk_during n (record query { cursor = cursor_of codec postgres (some r) }))
                    same
                  ∙ rest)
              ∙ ap some (sym split)
        ]
