-- ===== src/Mq.antt =====
-- src/mq/mq-publisher.service.ts: the one connection of the API to the broker, and what becomes of
-- a publish. amqplib, its timers and the broker are the events that the steps stand for.
pub mod Reconnecting
pub mod Publishing
use geofence_location.Prelude.{
  ℕ, ◌+◌, ◌*◌, ◌^◌, ◌<◌, ◌≡◌, String, Bool, true, false, not, Option, none, some, List, [], ◌∷◌,
  min, if◌then◌else◌,
}

abbrev pub reconnect_base_delay_ms : ℕ
reconnect_base_delay_ms = 500

abbrev pub reconnect_max_delay_ms : ℕ
reconnect_max_delay_ms = 5000

-- MqPublisherService. `connected` says that `connection` and `channel` are set, `timer` is the delay
-- of a reconnect timer that is armed, `connecting` counts the calls of `connect` in flight.
pub record Publisher : Type 0 where
  pub connected : Bool
  pub closing : Bool
  pub timer : Option ℕ
  pub reconnect_attempt : ℕ
  pub connecting : ℕ

unfoldable pub delay : ℕ → ℕ
delay attempt = min (reconnect_base_delay_ms * 2 ^ attempt) reconnect_max_delay_ms

unfoldable pub schedule_reconnect : Publisher → Publisher
unfolding delay
schedule_reconnect p = record p {
  timer = some (delay p.reconnect_attempt);
  reconnect_attempt = p.reconnect_attempt + 1;
}

-- the timer's callback calls `connect`
unfoldable pub fire : Publisher → Publisher
fire p = record p { timer = none; connecting = p.connecting + 1 }

-- the end of `connect`: the exchange has been seen
unfoldable pub connect_done : ℕ → Publisher → Publisher
connect_done others p = record p { connected = true; reconnect_attempt = 0; connecting = others }

-- `connect` of a reconnect rejects
unfoldable pub connect_failed : ℕ → Publisher → Publisher
unfolding schedule_reconnect
connect_failed others p = schedule_reconnect (record p { connecting = others })

-- the connection's 'close' event
unfoldable pub on_close : Publisher → Publisher
unfolding schedule_reconnect
on_close p =
    let dropped : Publisher = record p { connected = false } in
    if p.closing then dropped else schedule_reconnect dropped

-- onApplicationShutdown; what it closes answers with the 'close' event
unfoldable pub shut_down : Publisher → Publisher
shut_down p = record p { closing = true; timer = none }

-- the state once onApplicationBootstrap has returned; if its connect rejects, the process ends
abbrev pub booted : Publisher
booted = record {
  connected = true;
  closing = false;
  timer = none;
  reconnect_attempt = 0;
  connecting = 0;
}

pub data Step (p : Publisher) : Publisher → Type 0 where
  close_step : p.connected ≡ true → Step p (on_close p)
  fire_step : (ms : ℕ) → p.timer ≡ some ms → Step p (fire p)
  done_step : (others : ℕ) → p.connecting ≡ others + 1 → Step p (connect_done others p)
  failed_step : (others : ℕ) → p.connecting ≡ others + 1 → Step p (connect_failed others p)
  shut_down_step : Step p (shut_down p)

pub data Reach : Publisher → Type 0 where
  boot : Reach booted
  next : {p p' : Publisher} → Reach p → Step p p' → Reach p'

-- The end of a publish. The message of a MqUnavailableError is its reason.
pub data Reason : Type 0 where
  not_connected confirm_not_received broker_rejected : Reason
  publish_threw : String → Reason

pub data Outcome : Type 0 where
  resolved : Outcome
  rejected : Reason → Outcome

-- What may reach a publish: the broker's confirm, its nack, the end of the timer.
pub data PublishEvent : Type 0 where
  confirmed nacked confirm_timeout : PublishEvent

-- a promise keeps its first settlement
abbrev pub settle_promise : Outcome → Option Outcome → Option Outcome
settle_promise outcome none = some outcome
settle_promise outcome (some first) = some first

-- The promise and whether the timer is armed.
pub record Publish : Type 0 where
  pub promise : Option Outcome
  pub timer_armed : Bool

unfoldable pub on_event : PublishEvent → Publish → Publish
on_event confirmed q = record { promise = settle_promise resolved q.promise; timer_armed = false }
on_event nacked q = record {
  promise = settle_promise (rejected broker_rejected) q.promise;
  timer_armed = false;
}
on_event confirm_timeout q =
    if q.timer_armed
    then record {
      promise = settle_promise (rejected confirm_not_received) q.promise;
      timer_armed = false;
    }
    else q

unfoldable pub on_events : List PublishEvent → Publish → Publish
unfolding on_event
on_events [] q = q
on_events (event ∷ events) q = on_events events (on_event event q)

-- `publish`, by what `channel.publish` throws, if it does, and by the events that follow
unfoldable pub publish : Publisher → Option String → List PublishEvent → Option Outcome
unfolding on_events
publish p threw events = if not p.connected then some (rejected not_connected) else elim threw [
  | some message ↦ some (rejected (publish_threw message))
  | none ↦ (on_events events (record { promise = none; timer_armed = true })).promise
]
