-- ===== src/Worker.antt =====
-- src/worker/worker-consumer.service.ts: what a worker does with one delivery. The per-user chains
-- that order the deliveries are in Worker/Chains; the proofs are in the other modules below.
-- The channel stays open: `ack` and `nack` do not throw.
pub mod Settling
pub mod Chains
pub mod Processing
pub mod Dedup
pub mod Redelivery
pub mod Lifecycle
pub mod Keeping
pub mod Watermark
pub mod History
use Prim.Native.String
use text.Mathlib.Text.{find?}
use geofence_location.Prelude.{
  ℕ, ◌+◌, String, Bool, true, false, ◌&&◌, Option, none, some, List, [], ◌∷◌, ◌++◌, ◌==◌, Dict,
  lookup, insert, Number, ltb, leb, eqb, if◌then◌else◌,
}
use geofence_location.Database.{
  Connection, DriverError, Failure, unprocessable, snapshot_not_built, query_failed, Result, ok,
  err, read_state, find_state,
}
use geofence_location.Service.{World, Surroundings}
use geofence_location.Locations.{ReportLocationDto, LocationReportResponse}
use geofence_location.Locations.Report.{report}

-- LocationEventV1 without `v`, which the message carries beside it.
pub record LocationEvent : Type 0 where
  pub event_id : ℕ
  pub user_id : String
  pub device_id : Option String
  pub seq : Option ℕ
  pub lat : Number
  pub lng : Number
  pub accuracy : Option Number
  pub captured_at : Option ℕ
  pub received_at : ℕ

-- A delivery: its tag, and `v` with the event where its content parses as JSON.
pub record Message : Type 0 where
  pub delivery_tag : ℕ
  pub content : Option (ℕ × LocationEvent)

-- `channel.ack(message)` and `channel.nack(message, false, requeue)`
pub data Settlement : Type 0 where
  ack : ℕ → Settlement
  nack : ℕ → Bool → Settlement

pub record Consumer : Type 0 where
  pub world : World
  pub last_seq_by_device : Dict ℕ
  pub stale_area_drop_count : ℕ
  pub processed_count : ℕ
  pub settled : List Settlement

abbrev pub location_event_schema_version : ℕ
location_event_schema_version = 1

abbrev pub pg_foreign_key_violation : String
pg_foreign_key_violation = "23503"

unfoldable pub settle : Settlement → Consumer → Consumer
settle settlement k = record k { settled = k.settled ++ settlement ∷ [] }

-- `${event.userId}:${event.deviceId}`
unfoldable pub device_key : String → String → String
device_key user_id device_id = String.◌++◌ user_id (String.◌++◌ ":" device_id)

-- `rows.length > 0 ? Number(rows[0].last_seq) : 0`
abbrev pub last_seq_or_zero : Option ℕ → ℕ
last_seq_or_zero none = 0
last_seq_or_zero (some n) = n

-- isDuplicate on first sight of the device: the table's value is put into the Map
unfoldable pub load_last_seq : Connection → String → String → ℕ → Consumer → Result Bool × Consumer
load_last_seq c user_id device_id seq k = elim (c.fault read_state) [
  | some e ↦ (err (query_failed e), k)
  | none ↦
      let last_seq = last_seq_or_zero (find_state user_id device_id k.world.database.event_state) in
      (
        ok (leb seq last_seq),
        record k {
          last_seq_by_device = insert (device_key user_id device_id) last_seq k.last_seq_by_device;
        },
      )
]

unfoldable pub is_duplicate : Connection → LocationEvent → Consumer → Result Bool × Consumer
unfolding load_last_seq
is_duplicate c event k = elim event.device_id [
  | none ↦ (ok false, k)
  | some device_id ↦ elim event.seq [
    | none ↦ (ok false, k)
    | some seq ↦ elim (lookup (device_key event.user_id device_id) k.last_seq_by_device) [
      | some last_seq ↦ (ok (leb seq last_seq), k)
      | none ↦ load_last_seq c event.user_id device_id seq k
    ]
  ]
]

-- rememberSeq: the Map only grows
unfoldable pub remember_at : String → ℕ → Dict ℕ → Dict ℕ
remember_at key seq known =
    if ltb (last_seq_or_zero (lookup key known)) seq then insert key seq known else known

unfoldable pub remember_seq : LocationEvent → Dict ℕ → Dict ℕ
remember_seq event known = elim event.device_id [
  | none ↦ known
  | some device_id ↦ elim event.seq [
    | none ↦ known
    | some seq ↦ remember_at (device_key event.user_id device_id) seq known
  ]
]

abbrev pub names_area : Option String → Bool
names_area none = false
names_area (some constraint) = elim (find? constraint "area") [ none ↦ false | some _ ↦ true ]

unfoldable pub is_stale_area_violation : Failure → Bool
is_stale_area_violation unprocessable = false
is_stale_area_violation snapshot_not_built = false
is_stale_area_violation (query_failed e) =
    e.code == pg_foreign_key_violation && names_area e.constraint

-- what `processEvent` hands to `LocationsService.report`: no device and no seq
abbrev pub report_of : LocationEvent → ReportLocationDto
report_of event = record {
  user_id = event.user_id;
  lat = event.lat;
  lng = event.lng;
  device_id = none;
  seq = none;
  captured_at = event.captured_at;
  observed_at = none;
  accuracy = event.accuracy;
}

-- the catch block of `processEvent`
unfoldable pub catch_failure : ℕ → Failure → Consumer → Consumer
unfolding settle is_stale_area_violation
catch_failure tag e k =
    if is_stale_area_violation e
    then settle (ack tag) (record k {
      stale_area_drop_count = k.stale_area_drop_count + 1;
      processed_count = k.processed_count + 1;
    })
    else settle (nack tag true) k

-- what follows `report` in `processEvent`
unfoldable pub conclude :
    ℕ → LocationEvent → Consumer → Result LocationReportResponse × World → Consumer
unfolding settle remember_seq catch_failure
conclude tag event k (ok r, w) = settle (ack tag) (record k {
  world = w;
  last_seq_by_device = remember_seq event k.last_seq_by_device;
  processed_count = k.processed_count + 1;
})
conclude tag event k (err e, w) = catch_failure tag e (record k { world = w })

-- what follows `isDuplicate` in `processEvent`
unfoldable pub after_dedup : Surroundings → ℕ → LocationEvent → Result Bool × Consumer → Consumer
unfolding settle catch_failure conclude
after_dedup s tag event (ok true, k) = settle (ack tag) k
after_dedup s tag event (ok false, k) =
    conclude tag event k (report s (report_of event) event.received_at k.world)
after_dedup s tag event (err e, k) = catch_failure tag e k

unfoldable pub process_event : Surroundings → ℕ → LocationEvent → Consumer → Consumer
unfolding is_duplicate after_dedup
process_event s tag event k = after_dedup s tag event (is_duplicate s.connection event k)

-- the try block of `handle`, and the task that it appends to the user's chain
unfoldable pub handle_content : Surroundings → ℕ → Option (ℕ × LocationEvent) → Consumer → Consumer
unfolding settle process_event
handle_content s tag none k = settle (nack tag true) k
handle_content s tag (some (version, event)) k =
    if eqb version location_event_schema_version
    then process_event s tag event k
    else settle (nack tag true) k

unfoldable pub handle : Surroundings → Message → Consumer → Consumer
unfolding handle_content
handle s message k = handle_content s message.delivery_tag message.content k
