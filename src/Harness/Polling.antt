-- ===== src/Harness/Polling.antt =====
-- The loops of src/scripts/measure-presence.mjs that wait: `waitForDrain` and `pollUntil`. What the
-- rounds see, and the clock at each reading, are functions of the round's number.
use native.Mathlib.Decide.{dec_lt}
use geofence_location.Prelude.{
  ℕ, zero, suc, ◌+◌, ◌-◌, ◌≤◌, ◌<◌, ◌≡◌, refl, ◌∙◌, subst, ◌⊎◌, Bool, true, false, Option, none,
  some, ltb, eqb, arith, Bool-cases, Option-cases, inl, inr, if◌then◌else◌,
}

-- the results of waitForDrain: the time it took, -1, or the rejection of queueTotals
pub data Drain : Type 0 where
  drained_in : ℕ → Drain
  did_not_drain : Drain
  totals_failed : Drain

-- One wait: the messages that each round counts, none where the count rejects, and the clock at
-- the two readings of a round.
pub record Wait : Type 0 where
  pub messages : ℕ → Option ℕ
  pub started : ℕ
  pub now_drained : ℕ → ℕ
  pub now_checked : ℕ → ℕ

-- waitForDrain from round `i`, of at most `fuel` rounds
unfoldable pub wait_for_drain : Wait → ℕ → ℕ → ℕ → Option Drain
wait_for_drain w timeout_ms i zero = none
wait_for_drain w timeout_ms i (suc fuel) =
    let next = wait_for_drain w timeout_ms (i + 1) fuel in
    elim (w.messages i) [
      | none ↦ some totals_failed
      | some messages ↦
          if eqb messages 0
          then some (drained_in (w.now_drained i - w.started))
          else if ltb timeout_ms (w.now_checked i - w.started)
          then some did_not_drain
          else next
    ]

-- the condition that each round of pollUntil finds, none where it rejects, and the clock
pub record Poll : Type 0 where
  pub condition : ℕ → Option Bool
  pub started_at : ℕ
  pub now : ℕ → ℕ

pub data Polled : Type 0 where
  held : Bool → Polled
  condition_failed : Polled

-- pollUntil from round `i`, of at most `fuel` rounds
unfoldable pub poll_until : Poll → ℕ → ℕ → ℕ → Option Polled
poll_until p timeout_ms i zero = none
poll_until p timeout_ms i (suc fuel) =
    let next = poll_until p timeout_ms (i + 1) fuel in
    if ltb (p.now i) (p.started_at + timeout_ms)
    then elim (p.condition i) [
      | none ↦ some condition_failed
      | some holds ↦ if holds then some (held true) else next
    ]
    else some (held false)

-- `sleep(ms)` lets at least a millisecond pass
abbrev pub Advances : (ℕ → ℕ) → Type 0
Advances now = (i : ℕ) → now i + 1 ≤ now (i + 1)

-- what the last round, number `k`, has seen
abbrev pub EndsWith : Wait → ℕ → ℕ → Drain → Type 0
EndsWith w timeout_ms k (drained_in ms) =
    (w.messages k ≡ some 0) × (ms ≡ w.now_drained k - w.started)
EndsWith w timeout_ms k did_not_drain =
    (m : ℕ) × ((w.messages k ≡ some (suc m)) × (timeout_ms < w.now_checked k - w.started))
EndsWith w timeout_ms k totals_failed = w.messages k ≡ none

-- a round after which the loop goes on
abbrev pub GoesOn : Wait → ℕ → ℕ → Type 0
GoesOn w timeout_ms k =
    (m : ℕ) × ((w.messages k ≡ some (suc m)) × (w.now_checked k - w.started ≤ timeout_ms))

-- The loop has returned `r`: its last round explains it, and none before gave a reason to stop.
pub record IsEnded (w : Wait) (timeout_ms i : ℕ) (r : Drain) : Type 0 where
  pub last : ℕ
  pub from : i ≤ last
  pub ends : EndsWith w timeout_ms last r
  pub before : (k : ℕ) → i ≤ k → k < last → GoesOn w timeout_ms k

module _ (w : Wait) (timeout_ms : ℕ) where
  some_left : (m : ℕ) → eqb (suc m) 0 ≡ false
  some_left m = ground arith

  -- what one round decides
  round_cases :
      (i fuel : ℕ)
      → ((r : Drain) × ((wait_for_drain w timeout_ms i (suc fuel) ≡ some r)
            × EndsWith w timeout_ms i r))
        ⊎ ((wait_for_drain w timeout_ms i (suc fuel) ≡ wait_for_drain w timeout_ms (i + 1) fuel)
            × GoesOn w timeout_ms i)
  unfolding wait_for_drain
  round_cases i fuel = elim (Option-cases (w.messages i)) [
    | inl rejects ↦ inl (totals_failed, (rw (wait_for_drain, rejects) refl, rejects))
    | inr (zero, empty) ↦
        inl (
          drained_in (w.now_drained i - w.started),
          (rw (wait_for_drain, empty) refl, (empty, refl)),
        )
    | inr (suc m, seen) ↦ elim (Bool-cases (ltb timeout_ms (w.now_checked i - w.started))) [
      | inl late ↦ inl (
        did_not_drain,
        (rw (wait_for_drain, seen, some_left m, late) refl, (m, (seen, ground arith))),
      )
      | inr early ↦
          inr (rw (wait_for_drain, seen, some_left m, early) refl, (m, (seen, ground arith)))
    ]
  ]

  first-IsEnded : (i : ℕ) (r : Drain) → EndsWith w timeout_ms i r → IsEnded w timeout_ms i r
  first-IsEnded i r h = record {
    last = i;
    from = omega arith;
    ends = h;
    before = λ k lo hi. absurd (omega arith);
  }

  later-IsEnded :
      (i : ℕ) (r : Drain)
      → GoesOn w timeout_ms i
      → IsEnded w timeout_ms (i + 1) r
      → IsEnded w timeout_ms i r
  later-IsEnded i r on h = record {
    last = h.last;
    from = omega (arith, h.from);
    ends = h.ends;
    before = λ k lo hi. elim (dec_lt i k) [
      | yes above ↦ h.before k (omega arith) hi
      | no here ↦ let e : i ≡ k = omega arith in subst (GoesOn w timeout_ms) e on
    ];
  }

  wait_for_drain-IsEnded :
      (i fuel : ℕ)
      → Advances w.now_checked
      → w.started + timeout_ms + 1 < w.now_checked i + fuel
      → 0 < fuel
      → (r : Drain) × ((wait_for_drain w timeout_ms i fuel ≡ some r) × IsEnded w timeout_ms i r)
  wait_for_drain-IsEnded i zero adv enough pos = absurd (omega arith)
  wait_for_drain-IsEnded i (suc fuel) adv enough pos = elim (round_cases i fuel) [
    | inl (r, (e, h)) ↦ (r, (e, first-IsEnded i r h))
    | inr (e, on) ↦
        let (r, (e', h)) =
          wait_for_drain-IsEnded (i + 1) fuel adv (omega (arith, enough, adv i))
            (omega (arith, enough, on.1.1)) in
        (r, (e ∙ e', later-IsEnded i r on h))
  ]

-- With a clock that advances by a millisecond or more between two rounds, `waitForDrain` ends: it
-- makes at most `timeoutMs + 2` rounds. It returns the time until the first round that counts no
-- messages, or -1 from the first round that ends later than the timeout, or rejects as the first
-- count that rejects; every round before counted messages, in time.
pub wait_for_drain-ends :
    (w : Wait) (timeout_ms : ℕ)
    → Advances w.now_checked
    → w.started ≤ w.now_checked 0
    → (r : Drain) × ((wait_for_drain w timeout_ms 0 (timeout_ms + 2) ≡ some r)
        × IsEnded w timeout_ms 0 r)
wait_for_drain-ends w timeout_ms adv begun =
    wait_for_drain-IsEnded w timeout_ms 0 (timeout_ms + 2) adv (omega (arith, begun)) (omega arith)
