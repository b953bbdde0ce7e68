-- ===== src/Prelude/Decimal.antt =====
-- The decimal print of a natural number (`${n}`), as the list of its characters.
use Prim.Native.Nat.{ℕ, zero, suc, ◌+◌, ◌-◌, ◌*◌, ◌/◌, ◌%◌, ◌<◌}
use mathlib.Core.Path.{◌≡◌, refl, sym, ap, ◌∙◌}
use mathlib.Core.Logic.{inl, inr}
use mathlib.Core.List.{List, [], ◌∷◌, ◌++◌}
use native.Mathlib.Omega.{arith}
use geofence_location.Prelude.Tests.{ltb, if◌then◌else◌, Bool-cases}

-- one digit in each round; `rounds` is above the number
decimal_within : ℕ → ℕ → List ℕ
decimal_within zero n = []
decimal_within (suc rounds) n =
    let higher = decimal_within rounds (n / 10) in
    if ltb n 10 then (b'0' + n) ∷ [] else higher ++ (b'0' + n % 10) ∷ []

unfoldable pub decimal : ℕ → List ℕ
unfolding decimal_within
decimal n = decimal_within (suc n) n

-- the number that digits stand for, read behind `before`
abbrev pub value_of : ℕ → List ℕ → ℕ
value_of before [] = before
value_of before (c ∷ cs) = value_of (before * 10 + (c - b'0')) cs

abbrev pub AllDigits : List ℕ → Type 0
AllDigits [] = Unit
AllDigits (c ∷ cs) = (b'0' < c + 1) × ((c < b'0' + 10) × AllDigits cs)

value_of-append_one :
    (cs : List ℕ) (before d : ℕ)
    → value_of before (cs ++ d ∷ []) ≡ value_of before cs * 10 + (d - b'0')
value_of-append_one [] before d = refl
value_of-append_one (c ∷ cs) before d = value_of-append_one cs (before * 10 + (c - b'0')) d

AllDigits-append_one :
    (cs : List ℕ) (d : ℕ) → b'0' < d + 1 → d < b'0' + 10 → AllDigits cs → AllDigits (cs ++ d ∷ [])
AllDigits-append_one [] d lo hi h = (lo, (hi, tt))
AllDigits-append_one (c ∷ cs) d lo hi h = (h.0, (h.1.0, AllDigits-append_one cs d lo hi h.1.1))

value_of-decimal_within : (rounds n : ℕ) → n < rounds → value_of 0 (decimal_within rounds n) ≡ n
unfolding decimal_within
value_of-decimal_within zero n h = absurd (omega arith)
value_of-decimal_within (suc rounds) n h = elim (Bool-cases (ltb n 10)) [
  | inl small ↦ rw small (omega arith)
  | inr large ↦
      let higher = value_of-decimal_within rounds (n / 10) (ground arith) in
      rw large (
        value_of-append_one (decimal_within rounds (n / 10)) 0 (b'0' + n % 10)
        ∙ omega (arith, higher))
]

AllDigits-decimal_within : (rounds n : ℕ) → AllDigits (decimal_within rounds n)
unfolding decimal_within
AllDigits-decimal_within zero n = tt
AllDigits-decimal_within (suc rounds) n = elim (Bool-cases (ltb n 10)) [
  | inl small ↦ rw small (omega arith, (ground arith, tt))
  | inr large ↦ rw large (
      AllDigits-append_one (decimal_within rounds (n / 10)) (b'0' + n % 10) (omega arith)
        (omega arith) (AllDigits-decimal_within rounds (n / 10)))
]

pub value_of-decimal : (n : ℕ) → value_of 0 (decimal n) ≡ n
unfolding decimal
value_of-decimal n = value_of-decimal_within (suc n) n (omega arith)

pub decimal-AllDigits : (n : ℕ) → AllDigits (decimal n)
unfolding decimal
decimal-AllDigits n = AllDigits-decimal_within (suc n) n

pub decimal-inj : (m n : ℕ) → decimal m ≡ decimal n → m ≡ n
decimal-inj m n e = sym (value_of-decimal m) ∙ ap (value_of 0) e ∙ value_of-decimal n

append_one-cons : (cs : List ℕ) (d : ℕ) → (e : ℕ) × ((es : List ℕ) × (cs ++ d ∷ [] ≡ e ∷ es))
append_one-cons [] d = (d, ([], refl))
append_one-cons (c ∷ cs) d = (c, (cs ++ d ∷ [], refl))

-- a print has a first digit
pub decimal-cons : (n : ℕ) → (c : ℕ) × ((cs : List ℕ) × (decimal n ≡ c ∷ cs))
unfolding decimal decimal_within
decimal-cons n = elim (Bool-cases (ltb n 10)) [
  | inl small ↦ (b'0' + n, ([], rw small refl))
  | inr large ↦ rw large (append_one-cons (decimal_within n (n / 10)) (b'0' + n % 10))
]
