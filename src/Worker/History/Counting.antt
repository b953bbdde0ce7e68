-- ===== src/Worker/History/Counting.antt =====
-- Log rows, and what one delivery does in a worker (src/worker/worker-consumer.service.ts).
use geofence_location.Prelude.{
  ℕ, ◌+◌, ◌≡◌, refl, ◌∙◌, String, Bool, true, false, ◌&&◌, Option, none, some, List, [], ◌∷◌, ◌++◌,
  map, arith, contains, IsDistinct, eqb_iff, ◌==◌, if◌then◌else◌,
}
use geofence_location.Database.{LogRow, Connection, log_row}
use geofence_location.Presence.{PresenceMemory}
use geofence_location.Locations.Keeping.{IsKept}
use geofence_location.Service.{remember_in}
use geofence_location.Worker.History.{log_count}

pub log_count-append :
    (u : String) (area : ℕ) (rows rows' : List LogRow)
    → log_count u area (rows ++ rows') ≡ log_count u area rows + log_count u area rows'
log_count-append u area [] rows' = omega arith
log_count-append u area (row ∷ rows) rows' = omega (arith, log_count-append u area rows rows')

-- the rows of one transition: one for each of its areas
pub log_count-map :
    (c : Connection) (v u : String) (t : ℕ) (captured : Option ℕ) (area : ℕ) (out : List ℕ)
    → IsDistinct out
    → log_count u area (map (log_row c v t captured) out)
      ≡ (if v == u && contains out area then 1 else 0)
log_count-map c v u t captured area [] h = ground arith
log_count-map c v u t captured area (a ∷ out) h =
    ground (arith, log_count-map c v u t captured area out h.1, eqb_iff a area, h.0)

abbrev pub has_memory : Option PresenceMemory → Bool
has_memory none = false
has_memory (some _) = true

has_memory-remember_in :
    (u : String) (areas : List ℕ) (memory : Option PresenceMemory)
    → has_memory (remember_in u areas memory) ≡ has_memory memory
unfolding remember_in
has_memory-remember_in u areas none = refl
has_memory-remember_in u areas (some m) = refl

pub has_memory-IsKept : IsKept (λ db memory. has_memory memory ≡ true)
has_memory-IsKept = record {
  remembered = λ u areas db memory h. has_memory-remember_in u areas memory ∙ h;
  committed = λ s dto t captured current db db' outcome memory anonymous e h. h;
}
