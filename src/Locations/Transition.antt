-- ===== src/Locations/Transition.antt =====
-- The change path of `LocationsService.report`: the body of its transaction.
pub mod Entering
pub mod Commit
pub mod Ascending
pub mod Growing
use geofence_location.Prelude.{
  ℕ, String, Bool, true, false, not, Option, none, some, List, [], ◌∷◌, ◌||◌, leb, filter, contains,
  sort, if◌then◌else◌,
}
use geofence_location.Database.{
  Connection, Tx, pure, ◌>>=◌, ◌>>◌, fails, read_state, write_state, lock_user_and_read_presence,
  find_state, upsert_state, insert_presence_row, insert_log_row, delete_presence_rows,
}
use geofence_location.Locations.{ReportLocationDto, LocationReportResponse}

-- What the transaction leaves: the response, and the variable `wroteAnything`.
pub record Outcome : Type 0 where
  pub response : LocationReportResponse
  pub wrote_anything : Bool

-- `stateRows.length > 0 && dto.seq <= Number(stateRows[0].last_seq)`
abbrev pub is_handled : ℕ → Option ℕ → Bool
is_handled seq none = false
is_handled seq (some last_seq) = leb seq last_seq

-- The per-device dedup under the lock: true for a duplicate, and then nothing is written.
unfoldable pub dedup_device : Connection → String → String → ℕ → ℕ → Tx Bool
dedup_device c user_id device_id seq recorded_at = do
  fails (c.fault read_state)
  known ← λ db. pure (find_state user_id device_id db.event_state) db
  if is_handled seq known then pure true else do
    fails (c.fault write_state)
    λ db.
        pure false (record db {
          event_state = upsert_state user_id device_id seq recorded_at db.event_state;
        })

unfoldable pub dedup : Connection → ReportLocationDto → ℕ → Tx Bool
unfolding dedup_device
dedup c dto recorded_at = elim dto.device_id [
  | none ↦ pure false
  | some device_id ↦ elim dto.seq [
    | none ↦ pure false
    | some seq ↦ dedup_device c dto.user_id device_id seq recorded_at
  ]
]

-- One round of the loop over `entered`: a log row only where the insert returned a row.
unfoldable pub enter_area : Connection → String → ℕ → Option ℕ → ℕ → Tx Bool
enter_area c user_id recorded_at captured_at area_id = do
  inserted ← insert_presence_row c user_id area_id recorded_at
  if inserted then insert_log_row c user_id area_id recorded_at captured_at else pure tt
  pure inserted

-- The loop; its result is `enteredAreaIds`.
unfoldable pub enter_areas : Connection → String → ℕ → Option ℕ → List ℕ → Tx (List ℕ)
enter_areas c user_id recorded_at captured_at [] = pure []
enter_areas c user_id recorded_at captured_at (area_id ∷ more) = do
  inserted ← enter_area c user_id recorded_at captured_at area_id
  rest ← enter_areas c user_id recorded_at captured_at more
  pure (if inserted then area_id ∷ rest else rest)

-- `if (departed.length > 0)`
unfoldable pub depart : Connection → String → List ℕ → Tx (Unit {0})
depart c user_id [] = pure tt
depart c user_id (area_id ∷ more) = delete_presence_rows c user_id (area_id ∷ more)

abbrev pub is_nonempty : List ℕ → Bool
is_nonempty [] = false
is_nonempty (_ ∷ _) = true

-- `entered` and `departed`, from the authoritative read
unfoldable pub entered_areas : List ℕ → List ℕ → List ℕ
entered_areas previous current = sort (filter (λ a. not (contains previous a)) current)

unfoldable pub departed_areas : List ℕ → List ℕ → List ℕ
departed_areas previous current = filter (λ a. not (contains current a)) previous

-- The part of the transaction after the dedup gate.
unfoldable pub write_transition : Connection → String → ℕ → Option ℕ → List ℕ → List ℕ → Tx Outcome
write_transition c user_id recorded_at captured_at current previous = do
  let departed = departed_areas previous current
  entered_area_ids ← enter_areas c user_id recorded_at captured_at (entered_areas previous current)
  depart c user_id departed
  pure (record {
    response = record { entered_area_ids = entered_area_ids; duplicate = false };
    wrote_anything = is_nonempty entered_area_ids || is_nonempty departed;
  })

abbrev pub already_processed : Outcome
already_processed = record {
  response = record { entered_area_ids = []; duplicate = true };
  wrote_anything = false;
}

unfoldable pub transition : Connection → ReportLocationDto → ℕ → Option ℕ → List ℕ → Tx Outcome
unfolding dedup write_transition
transition c dto recorded_at captured_at current = do
  previous ← lock_user_and_read_presence c dto.user_id
  duplicate ← dedup c dto recorded_at
  if duplicate
      then pure already_processed
      else write_transition c dto.user_id recorded_at captured_at current previous
