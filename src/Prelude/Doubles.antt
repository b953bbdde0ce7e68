-- ===== src/Prelude/Doubles.antt =====
-- A finite double, exactly: the integer number of units of 2^-1074 that it stands for. The program
-- only compares these numbers, and the validation lets no infinity and no NaN through.
use Prim.Native.Nat.{ℕ, ◌*◌, ◌^◌}
use mathlib.Core.Bool.{Bool, true, false}
use geofence_location.Prelude.Tests.{ltb}

pub data ℤ : Type 0 where
  pos : ℕ → ℤ
  negsuc : ℕ → ℤ

abbrev pub Number : Type 0
Number = ℤ

-- `a < b`
abbrev pub ltb_ℤ : ℤ → ℤ → Bool
ltb_ℤ (pos a) (pos b) = ltb a b
ltb_ℤ (pos a) (negsuc b) = false
ltb_ℤ (negsuc a) (pos b) = true
ltb_ℤ (negsuc a) (negsuc b) = ltb b a

-- the double of a small natural number
unfoldable pub whole : ℕ → Number
whole n = pos (n * 2 ^ 1074)
