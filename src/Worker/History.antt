-- ===== src/Worker/History.antt =====
-- A worker over any sequence of deliveries: what src/worker and src/locations together make of the
-- positions of the users.
pub mod Counting
pub mod Steps
pub mod Visits
pub mod Growing
pub mod Redelivered
use geofence_location.Prelude.{
  ℕ, ◌+◌, ◌≡◌, String, Bool, true, false, not, ◌&&◌, Option, none, some, List, [], ◌∷◌, All,
  IsDistinct, contains, ltb, eqb, ◌==◌, if◌then◌else◌,
}
use geofence_location.Database.{LogRow, Result, ok, err}
use geofence_location.Service.{Surroundings}
use geofence_location.Worker.{LocationEvent, Message, Consumer, handle}

-- a delivery, and what the process and its surroundings are like while it is handled
pub record Delivery : Type 0 where
  pub surroundings : Surroundings
  pub message : Message

abbrev pub after : Delivery → Consumer → Consumer
after d k = handle d.surroundings d.message k

unfoldable pub handle_each : List Delivery → Consumer → Consumer
handle_each [] k = k
handle_each (d ∷ ds) k = handle_each ds (after d k)

-- the areas that cover the position of an event
abbrev pub areas_or_none : Result (List ℕ) → List ℕ
areas_or_none (ok areas) = areas
areas_or_none (err _) = []

abbrev pub covering : Surroundings → LocationEvent → List ℕ
covering s event = areas_or_none (s.find_covering_area_ids event.lng event.lat)

-- the snapshot is built, and answers with distinct areas
abbrev pub Answers : Delivery → Type 0
Answers d = elim d.message.content [
  | none ↦ Unit
  | some content ↦
      (areas : List ℕ) × ((d.surroundings.find_covering_area_ids content.1.lng content.1.lat
          ≡ ok areas)
        × IsDistinct areas)
]

-- the delivery has been evaluated: counted as processed, and not as a stale drop
abbrev pub is_evaluated : Consumer → Consumer → Bool
is_evaluated k k' =
    ltb k.processed_count k'.processed_count && eqb k.stale_area_drop_count k'.stale_area_drop_count

-- the areas that a delivery finds the user in, if it is one of the user's and is evaluated
abbrev pub found : String → Delivery → Consumer → Option (List ℕ)
found u d k = elim d.message.content [
  | none ↦ none
  | some content ↦
      if content.1.user_id == u && is_evaluated k (after d k)
      then some (covering d.surroundings content.1)
      else none
]

abbrev pub now_in : List ℕ → Option (List ℕ) → List ℕ
now_in before none = before
now_in before (some areas) = areas

-- where the last evaluated event found the user, who was in the areas `before`
unfoldable pub whereabouts : String → List Delivery → Consumer → List ℕ → List ℕ
whereabouts u [] k before = before
whereabouts u (d ∷ ds) k before = whereabouts u ds (after d k) (now_in before (found u d k))

abbrev pub is_entry : ℕ → List ℕ → Option (List ℕ) → ℕ
is_entry area before none = 0
is_entry area before (some areas) =
    if contains areas area && not (contains before area) then 1 else 0

-- how often an evaluated event finds the user in the area, where the one before it did not
unfoldable pub visits : String → ℕ → List Delivery → Consumer → List ℕ → ℕ
visits u area [] k before = 0
visits u area (d ∷ ds) k before =
    is_entry area before (found u d k) + visits u area ds (after d k) (now_in before (found u d k))

-- the log rows of a user and an area
abbrev pub log_count : String → ℕ → List LogRow → ℕ
log_count u area [] = 0
log_count u area (row ∷ rows) =
    (if row.user_id == u && eqb row.area_id area then 1 else 0) + log_count u area rows
