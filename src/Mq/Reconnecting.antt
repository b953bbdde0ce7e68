-- ===== src/Mq/Reconnecting.antt =====
-- `scheduleReconnect` of src/mq/mq-publisher.service.ts, and what leads to it.
use native.Mathlib.Nat.{one-le-pow, pow-suc}
use geofence_location.Prelude.{
  ℕ, zero, suc, ◌+◌, ◌*◌, ◌^◌, ◌≤◌, ◌≡◌, refl, ◌∙◌, ap, Bool, true, false, Option, none, some, min,
  arith,
}
use geofence_location.Mq.{
  Publisher, delay, schedule_reconnect, fire, connect_done, connect_failed, on_close, shut_down,
  Step, Reach, boot, next, close_step, fire_step, done_step, failed_step, shut_down_step,
}

abbrev one_if : Bool → ℕ
one_if true = 1
one_if false = 0

abbrev one_if_some : Option ℕ → ℕ
one_if_some none = 0
one_if_some (some _) = 1

-- the connection, the timers and the connects that there are
abbrev pub links : Publisher → ℕ
links p = one_if p.connected + one_if_some p.timer + p.connecting

record IsLinked (p : Publisher) : Type 0 where
  pub at_most : links p ≤ 1
  pub live : p.closing ≡ false → links p ≡ 1
  pub fresh : p.connected ≡ true → p.reconnect_attempt ≡ 0

Step-IsLinked : {p p' : Publisher} → Step p p' → IsLinked p → IsLinked p'
unfolding on_close schedule_reconnect fire connect_done connect_failed shut_down
Step-IsLinked {p} (close_step e) h = record {
  at_most = ground (arith, h.at_most, h.live);
  live = λ open_still. ground (arith, h.at_most, h.live);
  fresh = λ e₁. ground (arith, h.fresh);
}
Step-IsLinked {p} (fire_step ms e) h = record {
  at_most = ground (arith, h.at_most);
  live = λ open_still. ground (arith, h.at_most, h.live open_still);
  fresh = λ e₁. ground (arith, h.fresh, h.at_most);
}
Step-IsLinked {p} (done_step others e) h = record {
  at_most = ground (arith, h.at_most);
  live = λ open_still. ground (arith, h.at_most, h.live open_still);
  fresh = λ e₁. ground (arith, h.fresh, h.at_most);
}
Step-IsLinked {p} (failed_step others e) h = record {
  at_most = ground (arith, h.at_most);
  live = λ open_still. ground (arith, h.at_most, h.live open_still);
  fresh = λ e₁. ground (arith, h.fresh, h.at_most);
}
Step-IsLinked {p} shut_down_step h = record {
  at_most = ground (arith, h.at_most);
  live = λ open_still. cc;
  fresh = h.fresh;
}

Reach-IsLinked : {p : Publisher} → Reach p → IsLinked p
Reach-IsLinked boot = record { at_most = omega arith; live = λ e. refl; fresh = λ e. refl }
Reach-IsLinked (next reach step) = Step-IsLinked step (Reach-IsLinked reach)

-- Until the shutdown there is at any time exactly one of: the connection, an armed reconnect timer,
-- a connect in flight. No outage leaves the publisher without a reconnect, and none starts two.
pub links-eq-one : {p : Publisher} → Reach p → p.closing ≡ false → links p ≡ 1
links-eq-one reach open_still = (Reach-IsLinked reach).live open_still

-- `n` reconnects that fail, one after another
abbrev pub retries : ℕ → Publisher → Publisher
retries zero p = p
retries (suc n) p = connect_failed 0 (fire (retries n p))

retries-lem :
    (n : ℕ) (p : Publisher)
    → p.timer ≡ some (delay 0)
    → p.reconnect_attempt ≡ 1
    → ((retries n p).timer ≡ some (delay n)) × ((retries n p).reconnect_attempt ≡ n + 1)
unfolding connect_failed schedule_reconnect fire
retries-lem zero p e₁ e₂ = (e₁, e₂)
retries-lem (suc n) p e₁ e₂ =
    let (_, attempt) = retries-lem n p e₁ e₂ in
    (ap (λ k. some (delay k)) (attempt ∙ omega arith), omega (arith, attempt))

delay-bounds : (n : ℕ) → (500 ≤ delay n) × (delay n ≤ 5000) × (delay n ≤ delay (n + 1))
unfolding delay
delay-bounds n =
    let positive : 1 ≤ 2 ^ n = one-le-pow n 2 (omega arith) in
    let double : 2 ^ (n + 1) ≡ 2 ^ n * 2 = rw (the_suc n) (pow-suc 2 n) in
    (omega (arith, positive), omega arith, omega (arith, double))
  where
    the_suc : (n : ℕ) → n + 1 ≡ suc n
    the_suc n = omega arith

-- When the connection is lost, the timer that is armed after `n` failed reconnects has the delay
-- 500 * 2^n, bounded by 5000: never below 500, never above 5000, and never shorter than the last.
pub outage-delay :
    {p : Publisher} (n : ℕ)
    → Reach p
    → p.connected ≡ true
    → p.closing ≡ false
    → ((retries n (on_close p)).timer ≡ some (min (500 * 2 ^ n) 5000))
      × (500 ≤ delay n)
      × (delay n ≤ 5000)
      × (delay n ≤ delay (n + 1))
unfolding delay on_close schedule_reconnect
outage-delay {p} n reach up open_still =
    let fresh = (Reach-IsLinked reach).fresh up in
    let (timer, _) = retries-lem n (on_close p) (ground arith) (ground arith) in
    let (low, high, grows) = delay-bounds n in (timer, low, high, grows)
