-- ===== src/Logs/Descending.antt =====
-- The order of the rows in src/logs/logs.service.ts.
use geofence_location.Prelude.{
  ℕ, ◌≡◌, Bool, true, false, List, [], ◌∷◌, eqb, All, contains, IsDistinct, map, filter, arith,
  Bool-cases, inl, inr,
}
use geofence_location.Database.{LogRow}
use geofence_location.Logs.{Key, key_of, precedes, insert_row, newest_first}

pub precedes_trans : (a b c : Key) → precedes a b ≡ true → precedes b c ≡ true → precedes a c ≡ true
unfolding precedes
precedes_trans a b c h k = ground arith

precedes_total : (a b : Key) → eqb a.id b.id ≡ false → precedes a b ≡ false → precedes b a ≡ true
unfolding precedes
precedes_total a b h k = ground arith

pub precedes_asym : (a b : Key) → precedes a b ≡ true → precedes b a ≡ false
unfolding precedes
precedes_asym a b h = ground arith

pub precedes_irrefl : (a : Key) → precedes a a ≡ false
unfolding precedes
precedes_irrefl a = ground arith

abbrev pub AllPrecede : LogRow → List LogRow → Type 0
AllPrecede row rows = All (λ other. precedes (key_of other) (key_of row) ≡ true) rows

abbrev pub IsDescending : List LogRow → Type 0
IsDescending [] = Unit
IsDescending (row ∷ rows) = AllPrecede row rows × IsDescending rows

module _ {κ} (P : LogRow → Type κ) where
  All-insert_row :
      (row : LogRow) (rows : List LogRow) → P row → All P rows → All P (insert_row row rows)
  unfolding insert_row
  All-insert_row row [] p h = (p, tt)
  All-insert_row row (other ∷ rows) p h = elim (Bool-cases (precedes (key_of other) (key_of row))) [
    | inl before ↦ rw before (p, h)
    | inr after ↦ rw after (h.0, All-insert_row row rows p h.1)
  ]

  pub All-newest_first : (rows : List LogRow) → All P rows → All P (newest_first rows)
  unfolding newest_first
  All-newest_first [] h = tt
  All-newest_first (row ∷ rows) h =
      All-insert_row row (newest_first rows) h.0 (All-newest_first rows h.1)

  pub All-filter :
      (test : LogRow → Bool) (rows : List LogRow) → All P rows → All P (filter test rows)
  All-filter test [] h = tt
  All-filter test (row ∷ rows) h = elim (Bool-cases (test row)) [
    | inl passes_it ↦ rw passes_it (h.0, All-filter test rows h.1)
    | inr fails ↦ rw fails (All-filter test rows h.1)
  ]

AllPrecede-trans :
    (row other : LogRow) (rows : List LogRow)
    → precedes (key_of other) (key_of row) ≡ true
    → AllPrecede other rows
    → AllPrecede row rows
AllPrecede-trans row other [] e h = tt
AllPrecede-trans row other (r ∷ rows) e h = (
  precedes_trans (key_of r) (key_of other) (key_of row) h.0 e,
  AllPrecede-trans row other rows e h.1,
)

insert_row-IsDescending :
    (row : LogRow) (rows : List LogRow)
    → All (λ other. eqb other.id row.id ≡ false) rows
    → IsDescending rows
    → IsDescending (insert_row row rows)
unfolding insert_row
insert_row-IsDescending row [] d h = (tt, tt)
insert_row-IsDescending row (other ∷ rows) d h =
    elim (Bool-cases (precedes (key_of other) (key_of row))) [
      | inl before ↦ rw before ((before, AllPrecede-trans row other rows before h.0), h)
      | inr after ↦ rw after (
        All-insert_row (λ r. precedes (key_of r) (key_of other) ≡ true) row rows
            (precedes_total (key_of other) (key_of row) d.0 after) h.0,
        insert_row-IsDescending row rows d.1 h.1,
      )
    ]

others-differ :
    (id : ℕ) (rows : List LogRow)
    → contains (map (λ row. row.id) rows) id ≡ false
    → All (λ other. eqb other.id id ≡ false) rows
others-differ id [] h = tt
others-differ id (row ∷ rows) h = (ground arith, others-differ id rows (ground arith))

pub newest_first-IsDescending :
    (rows : List LogRow) → IsDistinct (map (λ row. row.id) rows) → IsDescending (newest_first rows)
unfolding newest_first
newest_first-IsDescending [] h = tt
newest_first-IsDescending (row ∷ rows) h =
    insert_row-IsDescending row (newest_first rows)
      (All-newest_first (λ other. eqb other.id row.id ≡ false) rows (others-differ row.id rows h.0))
      (newest_first-IsDescending rows h.1)

pub filter-IsDescending :
    (test : LogRow → Bool) (rows : List LogRow)
    → IsDescending rows
    → IsDescending (filter test rows)
filter-IsDescending test [] h = tt
filter-IsDescending test (row ∷ rows) h = elim (Bool-cases (test row)) [
  | inl passes_it ↦ rw passes_it (
    All-filter (λ other. precedes (key_of other) (key_of row) ≡ true) test rows h.0,
    filter-IsDescending test rows h.1,
  )
  | inr fails ↦ rw fails (filter-IsDescending test rows h.1)
]
