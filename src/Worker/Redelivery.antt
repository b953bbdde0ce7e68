-- ===== src/Worker/Redelivery.antt =====
-- Redelivered, retried and colliding events.
use Prim.Native.String
use text.Mathlib.TextLemmas.{append_assoc}
use geofence_location.Prelude.{
  ℕ, ◌≤◌, String, ◌≡◌, sym, ◌∙◌, ap, subst, false, none, some, arith, lookup, insert,
}
use geofence_location.Database.{Failure, ok, err, find_state, read_state}
use geofence_location.Service.{World, Surroundings}
use geofence_location.Locations.{LocationReportResponse}
use geofence_location.Locations.Report.{report}
use geofence_location.Worker.{
  LocationEvent, ack, Consumer, settle, device_key, is_duplicate, report_of, catch_failure,
  conclude, after_dedup, process_event,
}
use geofence_location.Worker.Dedup.{
  IsOf, IsFresh, process_event_of_duplicate, is_duplicate_of_IsKnown, IsFresh-of_not_duplicate,
  process_event-IsKnown, is_duplicate_of_IsFresh,
}

pub redelivery_skipped :
    (s s' : Surroundings) (tag tag' : ℕ) (event event' : LocationEvent) (k k₁ : Consumer)
    (key : String) (seq seq' : ℕ) (r : LocationReportResponse) (w : World)
    → IsOf key seq event
    → IsOf key seq' event'
    → seq' ≤ seq
    → is_duplicate s.connection event k ≡ (ok false, k₁)
    → report s (report_of event) event.received_at k₁.world ≡ (ok r, w)
    → process_event s' tag' event' (process_event s tag event k)
      ≡ settle (ack tag') (process_event s tag event k)
redelivery_skipped s s' tag tag' event event' k k₁ key seq seq' r w h h' older gate reported =
    let known = process_event-IsKnown s tag event k k₁ key seq r w h gate reported in
    process_event_of_duplicate s' tag' event' (process_event s tag event k)
      (process_event s tag event k)
      (is_duplicate_of_IsKnown s'.connection event' (process_event s tag event k) key seq' h'
        (record {
          last_seq = known.last_seq;
          found = known.found;
          reaches = omega (arith, known.reaches, older);
        }))

last_seq-catch_failure :
    (tag : ℕ) (x : Failure) (k : Consumer)
    → (catch_failure tag x k).last_seq_by_device ≡ k.last_seq_by_device
unfolding catch_failure
last_seq-catch_failure tag x k = ground arith

process_event_of_failure :
    (s : Surroundings) (tag : ℕ) (event : LocationEvent) (k k₁ : Consumer) (x : Failure) (w : World)
    → is_duplicate s.connection event k ≡ (ok false, k₁)
    → report s (report_of event) event.received_at k₁.world ≡ (err x, w)
    → process_event s tag event k ≡ catch_failure tag x (record k₁ { world = w })
unfolding process_event after_dedup conclude
process_event_of_failure s tag event k k₁ x w gate reported =
    ap (after_dedup s tag event) gate ∙ ap (conclude tag event k₁) reported

-- An event that passed the dedup gate and whose report threw, whatever the failure, passes the gate
-- again when it is redelivered: a failed event is never taken for its own duplicate.
pub retry_not_skipped :
    (s s' : Surroundings) (tag : ℕ) (event : LocationEvent) (k k₁ : Consumer) (key : String)
    (seq : ℕ) (x : Failure) (w : World)
    → IsOf key seq event
    → is_duplicate s.connection event k ≡ (ok false, k₁)
    → report s (report_of event) event.received_at k₁.world ≡ (err x, w)
    → (is_duplicate s'.connection event (process_event s tag event k)).0 ≡ ok false
retry_not_skipped s s' tag event k k₁ key seq x w h gate reported =
    is_duplicate_of_IsFresh s'.connection event (process_event s tag event k) key seq h (
      subst (IsFresh key seq)
        (sym (
          ap (λ (y : Consumer). y.last_seq_by_device)
            (process_event_of_failure s tag event k k₁ x w gate reported)
          ∙ last_seq-catch_failure tag x (record k₁ { world = w })))
        (IsFresh-of_not_duplicate s.connection event k k₁ key seq h gate))

device_key-append :
    (u d e : String)
    → device_key (String.◌++◌ u (String.◌++◌ ":" d)) e
      ≡ device_key u (String.◌++◌ d (String.◌++◌ ":" e))
unfolding device_key
device_key-append u d e = simp append_assoc

-- The two parts of a dedup key are not told apart. After an event of user `u:d` on device `e` that
-- passed the gate and whose report returned, an event of another user, `u`, on device `d:e` with the
-- same or a smaller seq is acknowledged as a duplicate: nothing is evaluated and nothing changes.
pub collision_skipped :
    (s s' : Surroundings) (tag tag' : ℕ) (u d e : String) (event event' : LocationEvent)
    (k k₁ : Consumer) (seq seq' : ℕ) (r : LocationReportResponse) (w : World)
    → event.user_id ≡ String.◌++◌ u (String.◌++◌ ":" d)
    → event.device_id ≡ some e
    → event.seq ≡ some seq
    → event'.user_id ≡ u
    → event'.device_id ≡ some (String.◌++◌ d (String.◌++◌ ":" e))
    → event'.seq ≡ some seq'
    → seq' ≤ seq
    → is_duplicate s.connection event k ≡ (ok false, k₁)
    → report s (report_of event) event.received_at k₁.world ≡ (ok r, w)
    → process_event s' tag' event' (process_event s tag event k)
      ≡ settle (ack tag') (process_event s tag event k)
collision_skipped s s' tag tag' u d e event event' k k₁ seq seq' r w p q o p' q' o' older gate
      reported =
    redelivery_skipped s s' tag tag' event event' k k₁
      (device_key u (String.◌++◌ d (String.◌++◌ ":" e))) seq seq' r w
      (record {
        device_id = e;
        device = q;
        own_key = ap (λ x. device_key x e) p ∙ device_key-append u d e;
        own_seq = o;
      })
      (record {
        device_id = String.◌++◌ d (String.◌++◌ ":" e);
        device = q';
        own_key = ap (λ x. device_key x (String.◌++◌ d (String.◌++◌ ":" e))) p';
        own_seq = o';
      })
      older gate reported

-- The first event that a device sends, where nothing is known of it in the memory or in the table,
-- is acknowledged as a duplicate if its seq is 0: it is not evaluated.
pub first_seq_zero_skipped :
    (s : Surroundings) (tag : ℕ) (event : LocationEvent) (device_id : String) (k : Consumer)
    → event.device_id ≡ some device_id
    → event.seq ≡ some 0
    → lookup (device_key event.user_id device_id) k.last_seq_by_device ≡ none
    → find_state event.user_id device_id k.world.database.event_state ≡ none
    → s.connection.fault read_state ≡ none
    → process_event s tag event k
      ≡ settle (ack tag) (record k {
        last_seq_by_device = insert (device_key event.user_id device_id) 0 k.last_seq_by_device;
      })
first_seq_zero_skipped s tag event device_id k device zero_seq unknown new_device reads =
    process_event_of_duplicate s tag event k _ (unfold is_duplicate in ground arith)
