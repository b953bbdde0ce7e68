-- ===== src/Worker/Dedup.antt =====
-- The in-memory dedup: what is remembered of a device's seqs, and which deliveries it skips.
use geofence_location.Prelude.{
  ℕ, ◌≤◌, ◌<◌, String, ◌≡◌, sym, ◌∙◌, ap, subst, true, false, inl, inr, none, some, arith, eq_refl,
  Dict, lookup, lookup-insert, ltb, if◌then◌else◌, Option-cases,
}
use geofence_location.Database.{ok, Connection, find_state}
use geofence_location.Service.{World, Surroundings}
use geofence_location.Locations.{LocationReportResponse}
use geofence_location.Locations.Report.{report}
use geofence_location.Worker.{
  LocationEvent, ack, Consumer, settle, device_key, last_seq_or_zero, is_duplicate, remember_at,
  remember_seq, report_of, conclude, after_dedup, process_event,
}

-- The event is of the device with this key and has this seq.
pub record IsOf (key : String) (seq : ℕ) (event : LocationEvent) : Type 0 where
  pub device_id : String
  pub device : event.device_id ≡ some device_id
  pub own_key : device_key event.user_id device_id ≡ key
  pub own_seq : event.seq ≡ some seq

-- At least `seq` is known of the key.
pub record IsKnown (key : String) (seq : ℕ) (known : Dict ℕ) : Type 0 where
  pub last_seq : ℕ
  pub found : lookup key known ≡ some last_seq
  pub reaches : seq ≤ last_seq

pub process_event_of_duplicate :
    (s : Surroundings) (tag : ℕ) (event : LocationEvent) (k k₁ : Consumer)
    → is_duplicate s.connection event k ≡ (ok true, k₁)
    → process_event s tag event k ≡ settle (ack tag) k₁
unfolding process_event after_dedup
process_event_of_duplicate s tag event k k₁ e = ap (after_dedup s tag event) e

pub is_duplicate_of_IsKnown :
    (c : Connection) (event : LocationEvent) (k : Consumer) (key : String) (seq : ℕ)
    → IsOf key seq event
    → IsKnown key seq k.last_seq_by_device
    → is_duplicate c event k ≡ (ok true, k)
unfolding is_duplicate
is_duplicate_of_IsKnown c event k key seq h known = ground arith

remember_seq-eq :
    (event : LocationEvent) (known : Dict ℕ) (key : String) (seq : ℕ)
    → IsOf key seq event
    → remember_seq event known ≡ remember_at key seq known
unfolding remember_seq
remember_seq-eq event known key seq h = ground arith

lookup-remember_at :
    (key : String) (seq : ℕ) (known : Dict ℕ)
    → lookup key (remember_at key seq known)
      ≡ (if ltb (last_seq_or_zero (lookup key known)) seq then some seq else lookup key known)
unfolding remember_at
lookup-remember_at key seq known = ground (arith, lookup-insert key key seq known, eq_refl key)

IsKnown-remember_at :
    (key : String) (seq last_seq : ℕ) (known : Dict ℕ)
    → lookup key known ≡ some last_seq
    → last_seq < seq
    → IsKnown key seq (remember_at key seq known)
IsKnown-remember_at key seq last_seq known e h = record {
  last_seq = seq;
  found = ground (arith, lookup-remember_at key seq known);
  reaches = omega arith;
}

-- What the gate has seen when it lets an event through.
pub record IsFresh (key : String) (seq : ℕ) (known : Dict ℕ) : Type 0 where
  pub last_seq : ℕ
  pub found : lookup key known ≡ some last_seq
  pub older : last_seq < seq

IsFresh-of_known :
    (c : Connection) (event : LocationEvent) (k k₁ : Consumer) (key : String) (seq last_seq : ℕ)
    → IsOf key seq event
    → lookup key k.last_seq_by_device ≡ some last_seq
    → is_duplicate c event k ≡ (ok false, k₁)
    → IsFresh key seq k₁.last_seq_by_device
unfolding is_duplicate
IsFresh-of_known c event k k₁ key seq last_seq h known e = record {
  last_seq = last_seq;
  found = ground arith;
  older = ground arith;
}

IsFresh-of_unknown :
    (c : Connection) (event : LocationEvent) (k k₁ : Consumer) (key : String) (seq : ℕ)
    → (h : IsOf key seq event) → lookup key k.last_seq_by_device ≡ none
    → is_duplicate c event k ≡ (ok false, k₁)
    → IsFresh key seq k₁.last_seq_by_device
unfolding is_duplicate
IsFresh-of_unknown c event k k₁ key seq h known e = record {
  last_seq = last;
  found = ground (arith, lookup-insert key key last k.last_seq_by_device, eq_refl key);
  older = ground arith;
}
  where
    last : ℕ
    last = last_seq_or_zero (find_state event.user_id h.device_id k.world.database.event_state)

pub IsFresh-of_not_duplicate :
    (c : Connection) (event : LocationEvent) (k k₁ : Consumer) (key : String) (seq : ℕ)
    → IsOf key seq event
    → is_duplicate c event k ≡ (ok false, k₁)
    → IsFresh key seq k₁.last_seq_by_device
IsFresh-of_not_duplicate c event k k₁ key seq h e =
    elim (Option-cases (lookup key k.last_seq_by_device)) [
      | inl unknown ↦ IsFresh-of_unknown c event k k₁ key seq h unknown e
      | inr (last_seq, known) ↦ IsFresh-of_known c event k k₁ key seq last_seq h known e
    ]

-- An event that the gate lets through and whose report returns is known afterwards.
pub process_event-IsKnown :
    (s : Surroundings) (tag : ℕ) (event : LocationEvent) (k k₁ : Consumer) (key : String) (seq : ℕ)
    (r : LocationReportResponse) (w : World)
    → IsOf key seq event
    → is_duplicate s.connection event k ≡ (ok false, k₁)
    → report s (report_of event) event.received_at k₁.world ≡ (ok r, w)
    → IsKnown key seq (process_event s tag event k).last_seq_by_device
unfolding process_event after_dedup
process_event-IsKnown s tag event k k₁ key seq r w h gate reported =
    let fresh = IsFresh-of_not_duplicate s.connection event k k₁ key seq h gate in
    subst (λ (x : Consumer). IsKnown key seq x.last_seq_by_device)
      (sym (ap (after_dedup s tag event) gate ∙ ap (conclude tag event k₁) reported))
      (subst (IsKnown key seq) (sym (remember_seq-eq event k₁.last_seq_by_device key seq h))
        (IsKnown-remember_at key seq fresh.last_seq k₁.last_seq_by_device fresh.found fresh.older))

pub is_duplicate_of_IsFresh :
    (c : Connection) (event : LocationEvent) (k : Consumer) (key : String) (seq : ℕ)
    → IsOf key seq event
    → IsFresh key seq k.last_seq_by_device
    → (is_duplicate c event k).0 ≡ ok false
unfolding is_duplicate
is_duplicate_of_IsFresh c event k key seq h fresh = ground arith
