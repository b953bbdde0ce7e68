-- ===== src/Locations/Report.antt =====
-- `LocationsService.report`: the accuracy gate, the hint, the no-change fast path, the change path
-- and what follows its commit.
use geofence_location.Prelude.{
  ℕ, String, Bool, true, false, not, Option, none, some, List, [], ◌&&◌, if◌then◌else◌,
}
use geofence_location.Database.{
  Database, Connection, Result, ok, err, unprocessable, query_failed, read_presence, area_ids_of,
  transaction,
}
use geofence_location.Presence.{
  PresenceCacheRead, hit, miss, error, record_invalidate_failure, record_change_path_noop,
  memory_get,
}
use geofence_location.Service.{
  Surroundings, Action, done, throw, lift, modify, ◌>>=◌, ◌>>◌, cache_get, cache_populate,
  cache_invalidate, remember,
}
use geofence_location.Locations.{
  ReportLocationDto, LocationReportResponse, is_too_uncertain, or_else, differs,
}
use geofence_location.Locations.Transition.{Outcome, transition}

-- readPresenceUnlocked
unfoldable pub read_presence_unlocked : Connection → String → Action (List ℕ)
read_presence_unlocked c user_id w = elim (c.fault read_presence) [
  | some e ↦ (err (query_failed e), w)
  | none ↦ (ok (area_ids_of user_id w.database.presence), w)
]

-- `previousHint` and `cacheRead`; the latter is null where no GET was made.
pub record Hint : Type 0 where
  pub previous : List ℕ
  pub cache_read : Option PresenceCacheRead

unfoldable pub hint_of_read : Connection → String → PresenceCacheRead → Action Hint
hint_of_read c user_id (hit area_ids) =
    done (record { previous = area_ids; cache_read = some (hit area_ids) })
hint_of_read c user_id read = do
  previous ← read_presence_unlocked c user_id
  done (record { previous = previous; cache_read = some read })

-- the hint where the process has a memory, by what it remembers of the user
unfoldable pub hint_of_memory : Connection → String → Option (List ℕ) → Action Hint
hint_of_memory c user_id (some remembered) =
    done (record { previous = remembered; cache_read = none })
hint_of_memory c user_id none = do
  previous ← read_presence_unlocked c user_id
  modify (remember user_id previous)
  done (record { previous = previous; cache_read = none })

unfoldable pub previous_hint : Surroundings → String → Action Hint
unfolding hint_of_read hint_of_memory
previous_hint s user_id w = elim w.memory [
  | none ↦ (do read ← cache_get s.redis user_id; hint_of_read s.connection user_id read) w
  | some memory ↦ hint_of_memory s.connection user_id (memory_get memory user_id) w
]

-- the fast path: only a clean miss writes back
unfoldable pub acknowledge_no_change : Surroundings → String → Hint → Action LocationReportResponse
acknowledge_no_change s user_id hint = do
  elim hint.cache_read [
    | some miss ↦ cache_populate s.redis_config user_id hint.previous
    | _ ↦ done tt
  ]
  done (record { entered_area_ids = []; duplicate = false })

-- `dataSource.transaction(...)` as seen by the request
unfoldable pub run_transaction : {A : Type 0} → (Database → Result (A × Database)) → Action A
run_transaction body w = elim (body w.database) [
  | ok (a, db) ↦ (ok a, record w { database = db })
  | err e ↦ (err e, w)
]

-- `cacheRead !== null && cacheRead.status !== 'error'`
abbrev pub gets_were_succeeding : Option PresenceCacheRead → Bool
gets_were_succeeding none = false
gets_were_succeeding (some (hit _)) = true
gets_were_succeeding (some miss) = true
gets_were_succeeding (some error) = false

-- the steps after the transaction
unfoldable pub after_commit :
    Surroundings → String → List ℕ → Hint → Outcome → Action LocationReportResponse
after_commit s user_id current hint outcome = do
  modify λ w.
      if not outcome.response.duplicate && not outcome.wrote_anything
      then record w { metrics = record_change_path_noop w.metrics }
      else w
  modify λ w. if outcome.response.duplicate then w else remember user_id current w
  invalidated ← cache_invalidate s.redis user_id
  modify λ w. if invalidated then w else record w {
    metrics = record_invalidate_failure (gets_were_succeeding hint.cache_read) w.metrics;
  }
  done outcome.response

unfoldable pub evaluate :
    Surroundings → ReportLocationDto → ℕ → List ℕ → Hint → Action LocationReportResponse
evaluate s dto recorded_at current hint =
    if not (differs current hint.previous) then acknowledge_no_change s dto.user_id hint else do
      outcome ← run_transaction (
          transaction s.connection (
            transition s.connection dto recorded_at (or_else dto.captured_at dto.observed_at)
              current))
      after_commit s dto.user_id current hint outcome

unfoldable pub report : Surroundings → ReportLocationDto → ℕ → Action LocationReportResponse
report s dto recorded_at = if is_too_uncertain dto.accuracy then throw unprocessable else do
  current ← lift (s.find_covering_area_ids dto.lng dto.lat)
  hint ← previous_hint s dto.user_id
  evaluate s dto recorded_at current hint
