-- ===== src/Prelude/Lists.antt =====
-- Lists over native lengths and Boolean tests, and lists of numbers read as sets.
use Prim.Native.Nat.{ℕ, zero, suc, ◌+◌, ◌≤◌, ◌<◌}
use mathlib.Core.Path.{◌≡◌, refl, ap, ◌∙◌, subst}
use mathlib.Core.Logic.{inl, inr}
use mathlib.Core.Bool.{Bool, true, false, ◌&&◌, ◌||◌}
use mathlib.Core.List.{List, [], ◌∷◌}
use native.Mathlib.Omega.{arith}
use geofence_location.Prelude.Tests.{eqb, eqb_iff, leb, if◌then◌else◌, Bool-cases}

module _ {ℓ} {A : Type ℓ} where
  abbrev pub length : List A → ℕ
  length [] = 0
  length (x ∷ xs) = suc (length xs)

  abbrev pub filter : (A → Bool) → List A → List A
  filter p [] = []
  filter p (x ∷ xs) = if p x then x ∷ filter p xs else filter p xs

  abbrev pub any : (A → Bool) → List A → Bool
  any p [] = false
  any p (x ∷ xs) = p x || any p xs

  -- the first items, and what follows them
  abbrev pub take : ℕ → List A → List A
  take zero xs = []
  take (suc n) [] = []
  take (suc n) (x ∷ xs) = x ∷ take n xs

  abbrev pub skip : ℕ → List A → List A
  skip zero xs = xs
  skip (suc n) [] = []
  skip (suc n) (x ∷ xs) = skip n xs

abbrev pub All {ℓ κ} : {A : Type ℓ} → (A → Type κ) → List A → Type κ
All P [] = Unit
All P (x ∷ xs) = P x × All P xs

-- `new Set(xs).has(a)`
abbrev pub contains : List ℕ → ℕ → Bool
contains [] a = false
contains (x ∷ xs) a = eqb x a || contains xs a

abbrev pub IsDistinct : List ℕ → Type 0
IsDistinct [] = Unit
IsDistinct (x ∷ xs) = (contains xs x ≡ false) × IsDistinct xs

abbrev pub IsAscending : List ℕ → Type 0
IsAscending [] = Unit
IsAscending (x ∷ xs) = All (λ y. x < y) xs × IsAscending xs

insert_sorted : ℕ → List ℕ → List ℕ
insert_sorted a [] = a ∷ []
insert_sorted a (x ∷ xs) = let rest = insert_sorted a xs in if leb a x then a ∷ x ∷ xs else x ∷ rest

-- `xs.sort()`, ascending and stable
unfoldable pub sort : List ℕ → List ℕ
unfolding insert_sorted
sort [] = []
sort (x ∷ xs) = insert_sorted x (sort xs)

contains-insert_sorted :
    (a : ℕ) (xs : List ℕ) (b : ℕ) → contains (insert_sorted a xs) b ≡ (eqb a b || contains xs b)
unfolding insert_sorted
contains-insert_sorted a [] b = refl
contains-insert_sorted a (x ∷ xs) b = ground (arith, contains-insert_sorted a xs b)

pub contains-sort : (xs : List ℕ) (b : ℕ) → contains (sort xs) b ≡ contains xs b
unfolding sort
contains-sort [] b = refl
contains-sort (x ∷ xs) b = ground (arith, contains-insert_sorted x (sort xs) b, contains-sort xs b)

pub contains-filter :
    (p : ℕ → Bool) (xs : List ℕ) (b : ℕ) → contains (filter p xs) b ≡ (contains xs b && p b)
contains-filter p [] b = refl
contains-filter p (x ∷ xs) b = ground (arith, contains-filter p xs b)

pub All-contains {ℓ} :
    (P : ℕ → Type ℓ) (xs : List ℕ) (b : ℕ) → All P xs → contains xs b ≡ true → P b
All-contains P [] b h e = cc
All-contains P (x ∷ xs) b h e = elim (Bool-cases (eqb x b)) [
  | inl same ↦ subst P ((eqb_iff x b).0 same) h.0
  | inr other ↦ All-contains P xs b h.1 (ground arith)
]

pub All-of_contains {ℓ} :
    (P : ℕ → Type ℓ) (xs : List ℕ) → ((b : ℕ) → contains xs b ≡ true → P b) → All P xs
All-of_contains P [] h = tt
All-of_contains P (x ∷ xs) h =
    (h x (ground arith), All-of_contains P xs (λ b e. h b (ground arith)))

pub any-eq-false :
    (p : ℕ → Bool) (xs : List ℕ) (b : ℕ) → any p xs ≡ false → contains xs b ≡ true → p b ≡ false
any-eq-false p [] b h k = cc
any-eq-false p (x ∷ xs) b h k = ground (arith, any-eq-false p xs b)

pub any-eq-false_of_all :
    (p : ℕ → Bool) (xs : List ℕ) → ((b : ℕ) → contains xs b ≡ true → p b ≡ false) → any p xs ≡ false
any-eq-false_of_all p [] h = refl
any-eq-false_of_all p (x ∷ xs) h =
    ground (arith, h x, any-eq-false_of_all p xs (λ b k. h b (ground arith)))

insert_sorted-All {κ} :
    (P : ℕ → Type κ) (a : ℕ) (xs : List ℕ) → P a → All P xs → All P (insert_sorted a xs)
unfolding insert_sorted
insert_sorted-All P a [] p h = (p, tt)
insert_sorted-All P a (x ∷ xs) p h = elim (Bool-cases (leb a x)) [
  | inl first ↦ rw first (p, h)
  | inr later ↦ rw later (h.0, insert_sorted-All P a xs p h.1)
]

All-lt_trans : (a x : ℕ) (xs : List ℕ) → a < x → All (λ y. x < y) xs → All (λ y. a < y) xs
All-lt_trans a x [] e h = tt
All-lt_trans a x (y ∷ xs) e h = (omega (arith, h.0), All-lt_trans a x xs e h.1)

insert_sorted-IsAscending :
    (a : ℕ) (xs : List ℕ)
    → contains xs a ≡ false
    → IsAscending xs
    → IsAscending (insert_sorted a xs)
unfolding insert_sorted
insert_sorted-IsAscending a [] d h = (tt, tt)
insert_sorted-IsAscending a (x ∷ xs) d h = elim (Bool-cases (leb a x)) [
  | inl first ↦
      let less : a < x = ground arith in rw first ((less, All-lt_trans a x xs less h.0), h)
  | inr later ↦ rw later (
    insert_sorted-All (λ y. x < y) a xs (ground arith) h.0,
    insert_sorted-IsAscending a xs (ground arith) h.1,
  )
]

pub sort-IsAscending : (xs : List ℕ) → IsDistinct xs → IsAscending (sort xs)
unfolding sort
sort-IsAscending [] h = tt
sort-IsAscending (x ∷ xs) h =
    insert_sorted-IsAscending x (sort xs) (contains-sort xs x ∙ h.0) (sort-IsAscending xs h.1)

insert_sorted-of_below : (a : ℕ) (xs : List ℕ) → All (λ y. a < y) xs → insert_sorted a xs ≡ a ∷ xs
unfolding insert_sorted
insert_sorted-of_below a [] h = refl
insert_sorted-of_below a (x ∷ xs) h = ground (arith, h.0)

pub sort-of_ascending : (xs : List ℕ) → IsAscending xs → sort xs ≡ xs
unfolding sort
sort-of_ascending [] h = refl
sort-of_ascending (x ∷ xs) h =
    ap (insert_sorted x) (sort-of_ascending xs h.1) ∙ insert_sorted-of_below x xs h.0

abbrev pub IsNondecreasing : List ℕ → Type 0
IsNondecreasing [] = Unit
IsNondecreasing (x ∷ xs) = All (λ y. x ≤ y) xs × IsNondecreasing xs

All-le_trans : (a x : ℕ) (xs : List ℕ) → a ≤ x → All (λ y. x ≤ y) xs → All (λ y. a ≤ y) xs
All-le_trans a x [] e h = tt
All-le_trans a x (y ∷ xs) e h = (omega (arith, h.0), All-le_trans a x xs e h.1)

insert_sorted-IsNondecreasing :
    (a : ℕ) (xs : List ℕ) → IsNondecreasing xs → IsNondecreasing (insert_sorted a xs)
unfolding insert_sorted
insert_sorted-IsNondecreasing a [] h = (tt, tt)
insert_sorted-IsNondecreasing a (x ∷ xs) h = elim (Bool-cases (leb a x)) [
  | inl first ↦ let le : a ≤ x = ground arith in rw first ((le, All-le_trans a x xs le h.0), h)
  | inr later ↦ rw later (
    insert_sorted-All (λ y. x ≤ y) a xs (ground arith) h.0,
    insert_sorted-IsNondecreasing a xs h.1,
  )
]

pub sort-IsNondecreasing : (xs : List ℕ) → IsNondecreasing (sort xs)
unfolding sort
sort-IsNondecreasing [] = tt
sort-IsNondecreasing (x ∷ xs) = insert_sorted-IsNondecreasing x (sort xs) (sort-IsNondecreasing xs)

length-insert_sorted : (a : ℕ) (xs : List ℕ) → length (insert_sorted a xs) ≡ length xs + 1
unfolding insert_sorted
length-insert_sorted a [] = refl
length-insert_sorted a (x ∷ xs) = ground (arith, length-insert_sorted a xs)

pub length-sort : (xs : List ℕ) → length (sort xs) ≡ length xs
unfolding sort
length-sort [] = refl
length-sort (x ∷ xs) = omega (arith, length-insert_sorted x (sort xs), length-sort xs)

module _ (test : ℕ → Bool) where
  filter-insert_sorted :
      (a : ℕ) (xs : List ℕ)
      → length (filter test (insert_sorted a xs)) ≡ length (filter test (a ∷ xs))
  unfolding insert_sorted
  filter-insert_sorted a [] = refl
  filter-insert_sorted a (x ∷ xs) = ground (arith, filter-insert_sorted a xs)

  -- sorting keeps how many pass a test
  pub length-filter-sort : (xs : List ℕ) → length (filter test (sort xs)) ≡ length (filter test xs)
  unfolding sort
  length-filter-sort [] = refl
  length-filter-sort (x ∷ xs) =
      filter-insert_sorted x (sort xs) ∙ same (sort xs) xs (length-filter-sort xs)
    where
      same :
          (ys zs : List ℕ)
          → length (filter test ys) ≡ length (filter test zs)
          → length (filter test (x ∷ ys)) ≡ length (filter test (x ∷ zs))
      same ys zs e = ground (arith, e)
