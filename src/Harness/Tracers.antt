-- ===== src/Harness/Tracers.antt =====
-- `tracerLoop` of src/scripts/measure-presence.mjs: a user that enters and leaves the area in turn.
-- The answers to its requests and what its polls see are parameters.
use geofence_location.Prelude.{
  ℕ, ◌+◌, ◌≡◌, refl, Bool, true, false, not, Option, none, some, List, [], ◌∷◌, ◌++◌, length, eqb,
  Bool-cases, inl, inr, arith, if◌then◌else◌,
}

-- `out`
pub record TracerOut : Type 0 where
  pub entry_ms : List ℕ
  pub exit_ms : List ℕ
  pub errors : ℕ
  pub timeouts : ℕ

pub record Tracer : Type 0 where
  pub inside : Bool
  pub out : TracerOut

-- a round: the status of its POST, and the time until its effect was seen, none if the poll gave up
pub record Round : Type 0 where
  pub status : ℕ
  pub seen : Option ℕ

unfoldable pub out_of_entry : Option ℕ → TracerOut → TracerOut
out_of_entry none out = record out { timeouts = out.timeouts + 1 }
out_of_entry (some ms) out = record out { entry_ms = out.entry_ms ++ ms ∷ [] }

unfoldable pub out_of_exit : Option ℕ → TracerOut → TracerOut
out_of_exit none out = record out { timeouts = out.timeouts + 1 }
out_of_exit (some ms) out = record out { exit_ms = out.exit_ms ++ ms ∷ [] }

-- one round of the loop
unfoldable pub tracer_round : Round → Tracer → Tracer
unfolding out_of_entry out_of_exit
tracer_round r t =
    if not (eqb r.status 202)
    then record t { out = record t.out { errors = t.out.errors + 1 } }
    else if not t.inside
    then record t { out = out_of_entry r.seen t.out; inside = true }
    else record t { out = out_of_exit r.seen t.out; inside = false }

-- the rounds up to the deadline, from a user who is outside
unfoldable pub tracer_loop : List Round → Tracer → Tracer
unfolding tracer_round
tracer_loop [] t = t
tracer_loop (r ∷ rs) t = tracer_loop rs (tracer_round r t)

abbrev pub outside : Tracer
outside = record {
  inside = false;
  out = record { entry_ms = []; exit_ms = []; errors = 0; timeouts = 0 };
}

-- the rounds whose effect was looked for
abbrev pub accounted : TracerOut → ℕ
accounted out = length out.entry_ms + length out.exit_ms + out.timeouts + out.errors

length-append_one : (xs : List ℕ) (x : ℕ) → length (xs ++ x ∷ []) ≡ length xs + 1
length-append_one [] x = refl
length-append_one (y ∷ xs) x = omega (arith, length-append_one xs x)

-- an effect that was looked for is a time or a timeout
accounted-out_of_entry :
    (seen : Option ℕ) (out : TracerOut) → accounted (out_of_entry seen out) ≡ accounted out + 1
unfolding out_of_entry
accounted-out_of_entry none out = omega arith
accounted-out_of_entry (some ms) out = omega (arith, length-append_one out.entry_ms ms)

accounted-out_of_exit :
    (seen : Option ℕ) (out : TracerOut) → accounted (out_of_exit seen out) ≡ accounted out + 1
unfolding out_of_exit
accounted-out_of_exit none out = omega arith
accounted-out_of_exit (some ms) out = omega (arith, length-append_one out.exit_ms ms)

accounted-tracer_round :
    (r : Round) (t : Tracer) → accounted (tracer_round r t).out ≡ accounted t.out + 1
unfolding tracer_round
accounted-tracer_round r t = elim (Bool-cases (not (eqb r.status 202))) [
  | inl refused ↦ rw refused (omega arith)
  | inr accepted ↦ elim (Bool-cases (not t.inside)) [
    | inl was_out ↦ rw (accepted, was_out) (accounted-out_of_entry r.seen t.out)
    | inr was_in ↦ rw (accepted, was_in) (accounted-out_of_exit r.seen t.out)
  ]
]

-- Every round of a tracer is accounted for once: as an entry, an exit, a timeout or an error.
pub accounted-tracer_loop :
    (rs : List Round) (t : Tracer) → accounted (tracer_loop rs t).out ≡ accounted t.out + length rs
unfolding tracer_loop
accounted-tracer_loop [] t = omega arith
accounted-tracer_loop (r ∷ rs) t =
    omega (arith, accounted-tracer_loop rs (tracer_round r t), accounted-tracer_round r t)
