-- ===== src/Prelude/Sets.antt =====
-- Lists of numbers as sets: a list of distinct numbers inside another of its length exhausts it.
use Prim.Native.Nat.{ℕ, ◌+◌, ◌≤◌}
use mathlib.Core.Path.{◌≡◌, refl}
use mathlib.Core.Bool.{true, false}
use mathlib.Core.List.{List, [], ◌∷◌}
use native.Mathlib.Omega.{arith}
use geofence_location.Prelude.Tests.{eqb, if◌then◌else◌}
use geofence_location.Prelude.Lists.{length, contains, IsDistinct}

abbrev pub Includes : List ℕ → List ℕ → Type 0
Includes ys xs = (b : ℕ) → contains xs b ≡ true → contains ys b ≡ true

erase : ℕ → List ℕ → List ℕ
erase a [] = []
erase a (x ∷ xs) = let rest = erase a xs in if eqb x a then xs else x ∷ rest

length-erase : (a : ℕ) (xs : List ℕ) → contains xs a ≡ true → length (erase a xs) + 1 ≡ length xs
unfolding erase
length-erase a [] h = cc
length-erase a (x ∷ xs) h = ground (arith, length-erase a xs)

contains-erase_ne :
    (a b : ℕ) (xs : List ℕ) → eqb a b ≡ false → contains (erase a xs) b ≡ contains xs b
unfolding erase
contains-erase_ne a b [] h = refl
contains-erase_ne a b (x ∷ xs) h = ground (arith, contains-erase_ne a b xs h)

Includes-of_erase : (x : ℕ) (xs ys : List ℕ) → Includes xs (erase x ys) → Includes (x ∷ xs) ys
Includes-of_erase x xs ys h b k = ground (arith, contains-erase_ne x b ys, h b)

Includes-erase :
    (x : ℕ) (xs ys : List ℕ)
    → contains xs x ≡ false
    → Includes ys (x ∷ xs)
    → Includes (erase x ys) xs
Includes-erase x xs ys d h b k = ground (arith, contains-erase_ne x b ys, h b)

pub Includes-of_length-eq :
    (xs ys : List ℕ) → IsDistinct xs → Includes ys xs → length xs ≡ length ys → Includes xs ys
Includes-of_length-eq [] [] d h e = λ b k. k
Includes-of_length-eq [] (y ∷ ys) d h e = absurd (omega arith)
Includes-of_length-eq (x ∷ xs) ys d h e = Includes-of_erase x xs ys (
    Includes-of_length-eq xs (erase x ys) d.1 (Includes-erase x xs ys d.0 h)
      (omega (arith, length-erase x ys (h x (ground arith)), e)))

pub length-le_of_Includes :
    (xs ys : List ℕ) → IsDistinct xs → Includes ys xs → length xs ≤ length ys
length-le_of_Includes [] ys d h = omega arith
length-le_of_Includes (x ∷ xs) ys d h = omega (
  arith,
  length-erase x ys (h x (ground arith)),
  length-le_of_Includes xs (erase x ys) d.1 (Includes-erase x xs ys d.0 h),
)
