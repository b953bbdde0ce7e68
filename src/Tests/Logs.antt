-- ===== src/Tests/Logs.antt =====
-- Three entries, two of them at the same moment, in pages of two.
use geofence_location.Prelude.{
  ℕ, ◌≡◌, refl, String, ◌==◌, none, some, List, [], ◌∷◌, arith, eqb, inl, inr, Bool-cases,
  if◌then◌else◌, All,
}
use geofence_location.Database.{LogRow}
use geofence_location.Areas.GeoJson.{text, array, nil, cons}
use geofence_location.Logs.Cursor.{
  Codec, encode_logs_cursor, decode_logs_cursor, cursor_of_value, is_uuid, is_timestamptz_text, eat,
  eat_all, drop_digits,
}
use geofence_location.Logs.{
  ListLogsQuery, Postgres, precedes, meets, insert_row, newest_first, selected, page_of,
  position_of, list,
}
use geofence_location.Logs.Walking.{IsTextual}
use geofence_location.Logs.Complete.{walk, walk-eq-selected}
use geofence_location.Logs.Inserting.{IsLater, walk_during, walk_during-eq-selected}

unfoldable log_runs : Unit {0}
unfolding encode_logs_cursor decode_logs_cursor cursor_of_value is_uuid is_timestamptz_text eat
    eat_all drop_digits precedes meets insert_row newest_first selected page_of position_of list
log_runs = tt

abbrev entry : ℕ → ℕ → LogRow
entry id recorded_at = record {
  id = id;
  user_id = "ann";
  area_id = 1;
  recorded_at = recorded_at;
  captured_at = none;
}

abbrev log_table : List LogRow
log_table = entry 1 7 ∷ entry 2 7 ∷ entry 3 6 ∷ []

abbrev uuid_one : String
uuid_one = "00000000-0000-4000-8000-00000000000a"

abbrev uuid_two : String
uuid_two = "00000000-0000-4000-8000-00000000000b"

abbrev uuid_three : String
uuid_three = "00000000-0000-4000-8000-00000000000c"

abbrev moment_six : String
moment_six = "2026-08-07 17:50:52.84+00"

abbrev moment_seven : String
moment_seven = "2026-08-07 17:50:53+00"

abbrev postgres : Postgres
postgres = record {
  timestamp_text = λ t. if eqb t 7 then moment_seven else moment_six;
  uuid_text = λ id. if eqb id 1 then uuid_one else if eqb id 2 then uuid_two else uuid_three;
  read_timestamp = λ s. if s == moment_seven then 7 else 6;
  read_uuid = λ s. if s == uuid_one then 1 else if s == uuid_two then 2 else 3;
}

-- a codec that does not hide the pair
abbrev codec : Codec
codec = record {
  write = λ a b. if a == moment_seven then b else "6";
  read = λ raw.
      if raw == "6"
      then some (array (cons (text moment_six) (cons (text uuid_three) nil)))
      else some (array (cons (text moment_seven) (cons (text raw) nil)));
}

All-IsTextual : All (IsTextual codec postgres) log_table
unfolding log_runs
All-IsTextual = (textual_one, (textual_two, (textual_three, tt)))
  where
    textual_one : IsTextual codec postgres (entry 1 7)
    textual_one = record {
      read_back = refl;
      timestamp = refl;
      uuid = refl;
      read_timestamp = refl;
      read_uuid = refl;
    }

    textual_two : IsTextual codec postgres (entry 2 7)
    textual_two = record {
      read_back = refl;
      timestamp = refl;
      uuid = refl;
      read_timestamp = refl;
      read_uuid = refl;
    }

    textual_three : IsTextual codec postgres (entry 3 6)
    textual_three = record {
      read_back = refl;
      timestamp = refl;
      uuid = refl;
      read_timestamp = refl;
      read_uuid = refl;
    }

abbrev first_page : ListLogsQuery
first_page = record {
  user_id = some "ann";
  area_id = none;
  from = some 2;
  to = none;
  cursor = none;
  limit = 2;
}

walk-eq-selected_example :
    walk codec postgres 4 first_page log_table ≡ some (entry 2 7 ∷ entry 1 7 ∷ entry 3 6 ∷ [])
unfolding log_runs
walk-eq-selected_example =
    walk-eq-selected codec postgres log_table (refl, (refl, (refl, tt))) All-IsTextual 4 first_page
      none (omega arith) refl (omega arith)

first_page_ends :
    list codec postgres first_page log_table
    ≡ some (record { items = entry 2 7 ∷ entry 1 7 ∷ []; next_cursor = some uuid_one })
unfolding log_runs
first_page_ends = refl

-- an entry that is logged after the first page was sent
abbrev meanwhile : ℕ → List LogRow
meanwhile i = if eqb i 2 then entry 4 8 ∷ [] else []

meanwhile-IsLater : (i : ℕ) → All (IsLater (record { recorded_at = 7; id = 1 })) (meanwhile i)
meanwhile-IsLater i = elim (Bool-cases (eqb i 2)) [
  | inl now ↦ rw now (inl (omega arith), tt)
  | inr quiet ↦ rw quiet tt
]

walk_during-eq-selected_example :
    walk_during codec postgres meanwhile 3 (record first_page { cursor = some uuid_one }) log_table
    ≡ some (entry 3 6 ∷ [])
unfolding log_runs
walk_during-eq-selected_example =
    walk_during-eq-selected codec postgres meanwhile log_table (refl, (refl, (refl, tt)))
      All-IsTextual 3 (record first_page { cursor = some uuid_one })
      (record { recorded_at = 7; id = 1 }) [] (omega arith) refl tt meanwhile-IsLater (omega arith)
