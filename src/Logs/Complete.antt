-- ===== src/Logs/Complete.antt =====
-- src/logs/logs.service.ts: walks through the pages of a table that stays as it is.
use geofence_location.Prelude.{
  take, ℕ, zero, suc, ◌+◌, ◌≤◌, ◌<◌, ◌≡◌, inl, inr, sym, ◌∙◌, ap, String, true, Option, none, some,
  List, [], ◌∷◌, ◌++◌, All, IsDistinct, length, map, filter, arith,
}
use geofence_location.Database.{LogRow}
use geofence_location.Logs.Cursor.{Codec}
use geofence_location.Logs.{
  ListLogsQuery, Postgres, Key, key_of, meets, is_past, newest_first, selected, last, cursor_of,
  page_of, position_of, list,
}
use geofence_location.Logs.Descending.{
  IsDescending, newest_first-IsDescending, filter-IsDescending, All-filter, All-newest_first,
}
use geofence_location.Logs.Walking.{
  IsTextual, position_of-cursor_of, All-last, filter-passes, filter-later, page-split,
  page_of-cases,
}

length-append : (xs ys : List LogRow) → length (xs ++ ys) ≡ length xs + length ys
length-append [] ys = omega arith
length-append (x ∷ xs) ys = omega (arith, length-append xs ys)

length-of_last : (xs : List LogRow) (r : LogRow) → last xs ≡ some r → 1 ≤ length xs
length-of_last [] r e = cc
length-of_last (x ∷ xs) r e = omega arith

pub shorter :
    (page rest : List LogRow) (r : LogRow) (n : ℕ) {rows : List LogRow}
    → rows ≡ page ++ rest
    → last page ≡ some r
    → length rows < suc n
    → length rest < n
shorter page rest r n split ends enough =
    omega (arith, ap length split, length-append page rest, length-of_last page r ends, enough)

module _ (query : ListLogsQuery) (position : Option Key) (table : List LogRow) where
  pub selected-IsDescending :
      IsDistinct (map (λ row. row.id) table) → IsDescending (selected query position table)
  unfolding selected
  selected-IsDescending h =
      filter-IsDescending (is_past position) (filter (meets query) (newest_first table))
        (filter-IsDescending (meets query) (newest_first table) (newest_first-IsDescending table h))

  pub selected-All {κ} : (P : LogRow → Type κ) → All P table → All P (selected query position table)
  unfolding selected
  selected-All P h =
      All-filter P (is_past position) (filter (meets query) (newest_first table))
        (All-filter P (meets query) (newest_first table) (All-newest_first P table h))

  pub selected-split :
      (n : ℕ) (r : LogRow)
      → IsDistinct (map (λ row. row.id) table)
      → last (take n (selected query position table)) ≡ some r
      → selected query position table
        ≡ take n (selected query position table) ++ selected query (some (key_of r)) table
  unfolding selected
  selected-split n r distinct e =
      let base = filter (meets query) (newest_first table) in
      let past : is_past position r ≡ true =
        All-last (λ row. is_past position row ≡ true) n (filter (is_past position) base) r
          (filter-passes (is_past position) base) e in
      page-split n (filter (is_past position) base) r (selected-IsDescending distinct) e
      ∙ ap (λ l. take n (filter (is_past position) base) ++ l) (filter-later position r base past)

module _ (codec : Codec) (postgres : Postgres) where
  -- the pages from a query on, each asked for with the cursor of the one before; at most `n`
  abbrev pub walk : ℕ → ListLogsQuery → List LogRow → Option (List LogRow)
  walk zero query table = none
  walk (suc n) query table = elim (list codec postgres query table) [
    | none ↦ none
    | some page ↦ elim page.next_cursor [
      | none ↦ some page.items
      | some raw ↦ elim (walk n (record query { cursor = some raw }) table) [
        | none ↦ none
        | some more ↦ some (page.items ++ more)
      ]
    ]
  ]

  -- the page of a query whose cursor is a position
  pub list-eq :
      (query : ListLogsQuery) (position : Option Key) (table : List LogRow)
      → position_of codec postgres query.cursor ≡ some position
      → list codec postgres query table
        ≡ some (
            page_of codec postgres query.limit
              (take (suc query.limit) (selected query position table)))
  unfolding list
  list-eq query position table e = ground arith

  walk-last :
      (n : ℕ) (query : ListLogsQuery) (table items : List LogRow)
      → list codec postgres query table ≡ some (record { items = items; next_cursor = none })
      → walk (suc n) query table ≡ some items
  walk-last n query table items e = ground (arith, e)

  walk-next :
      (n : ℕ) (query : ListLogsQuery) (table items more : List LogRow) (raw : String)
      → list codec postgres query table ≡ some (record { items = items; next_cursor = some raw })
      → walk n (record query { cursor = some raw }) table ≡ some more
      → walk (suc n) query table ≡ some (items ++ more)
  walk-next n query table items more raw e rest = ground (arith, e, rest)

  module _ (table : List LogRow) (distinct : IsDistinct (map (λ row. row.id) table))
      (textual : All (IsTextual codec postgres) table) where
    -- For a table with distinct ids, whose times and ids PostgreSQL and the cursor write and read
    -- back as documented: a walk of pages, each asked for with the cursor of the one before, comes
    -- to an end, and its pages in a row are all the rows that pass the filters from the first cursor
    -- on, newest first: each once and none left out, whatever the limit.
    pub walk-eq-selected :
        (n : ℕ) (query : ListLogsQuery) (position : Option Key)
        → 0 < query.limit
        → position_of codec postgres query.cursor ≡ some position
        → length (selected query position table) < n
        → walk n query table ≡ some (selected query position table)
    unfolding selected
    walk-eq-selected zero query position positive e enough = absurd (omega arith)
    walk-eq-selected (suc n) query position positive e enough =
        elim (page_of-cases codec postgres query.limit (selected query position table) positive) [
          | inl whole ↦
              walk-last n query table (selected query position table)
                (list-eq query position table e ∙ ap some whole)
          | inr (r, ends, page) ↦
              let split = selected-split query position table query.limit r distinct ends in
              let rest =
                walk-eq-selected n (record query { cursor = cursor_of codec postgres (some r) })
                  (some (key_of r)) positive
                  (position_of-cursor_of codec postgres r (
                    All-last (IsTextual codec postgres) query.limit (selected query position table)
                      r (selected-All query position table (IsTextual codec postgres) textual)
                      ends))
                  (shorter (take query.limit (selected query position table))
                    (selected query (some (key_of r)) table) r n split ends enough) in
              walk-next n query table (take query.limit (selected query position table))
                (selected query (some (key_of r)) table) _
                (list-eq query position table e ∙ ap some page) rest
              ∙ ap some (sym split)
        ]
