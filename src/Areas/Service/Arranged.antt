-- ===== src/Areas/Service/Arranged.antt =====
-- The order that the ORDER BY of `findAll` in src/areas/areas.service.ts leaves: only one, for
-- distinct ids.
use mathlib.Core.List.{Perm}
use mathlib.Core.List.Perm
use geofence_location.Prelude.{
  ℕ, ◌+◌, ◌<◌, ◌≡◌, ◌≢◌, refl, sym, ap, subst, ◌∙◌, Bool, true, false, ◌&&◌, ◌||◌, Bool-cases, inl,
  inr, ◌⊎◌, List, [], ◌∷◌, map, All, IsDistinct, contains, length, ltb, eqb, eqb_iff, arith,
  if◌then◌else◌,
}
use geofence_location.Areas.Service.{AreaEntity, order_keys, OrderBy}

-- the rows with one more, anywhere among them
pub data Inserted (a : AreaEntity) : List AreaEntity → List AreaEntity → Type 0 where
  at_front : {rows : List AreaEntity} → Inserted a rows (a ∷ rows)
  behind :
      {x : AreaEntity} {rows more : List AreaEntity}
      → Inserted a rows more
      → Inserted a (x ∷ rows) (x ∷ more)

-- the same rows, each as often, in any order
pub data Arranged : List AreaEntity → List AreaEntity → Type 0 where
  no_rows : Arranged [] []
  one_more :
      {a : AreaEntity} {rows out more : List AreaEntity}
      → Arranged rows out
      → Inserted a out more
      → Arranged (a ∷ rows) more

-- the order of SQL on lists of keys: the first key that differs decides
abbrev pub is_not_after : List ℕ → List ℕ → Bool
is_not_after [] ys = true
is_not_after (x ∷ xs) [] = false
is_not_after (x ∷ xs) (y ∷ ys) = ltb x y || (eqb x y && is_not_after xs ys)

abbrev pub IsOrdered : (AreaEntity → List ℕ) → List AreaEntity → Type 0
IsOrdered keys [] = Unit
IsOrdered keys (a ∷ rows) =
    All (λ b. is_not_after (keys a) (keys b) ≡ true) rows × IsOrdered keys rows

-- PostgreSQL's documentation of ORDER BY: the rows come in an order of the keys, and rows with equal
-- keys in any order.
pub record IsOrderBy (order_by : OrderBy) : Type 0 where
  pub arranged :
      (keys : AreaEntity → List ℕ) (rows : List AreaEntity) → Arranged rows (order_by keys rows)
  pub ordered :
      (keys : AreaEntity → List ℕ) (rows : List AreaEntity) → IsOrdered keys (order_by keys rows)

-- Created earlier, or at the same time with a smaller id.
abbrev pub IsOlder : AreaEntity → AreaEntity → Type 0
IsOlder a b = (a.created_at < b.created_at) ⊎ ((a.created_at ≡ b.created_at) × (a.id < b.id))

abbrev pub IsOldestFirst : List AreaEntity → Type 0
IsOldestFirst [] = Unit
IsOldestFirst (a ∷ areas) = All (IsOlder a) areas × IsOldestFirst areas

-- the one order that the keys leave, by insertion
is_before : AreaEntity → AreaEntity → Bool
is_before a b = ltb a.created_at b.created_at || (eqb a.created_at b.created_at && ltb a.id b.id)

insert_area : AreaEntity → List AreaEntity → List AreaEntity
unfolding is_before
insert_area a [] = a ∷ []
insert_area a (x ∷ xs) =
    let rest = insert_area a xs in if is_before x a then x ∷ rest else a ∷ x ∷ xs

pub oldest_first : List AreaEntity → List AreaEntity
unfolding insert_area
oldest_first [] = []
oldest_first (a ∷ areas) = insert_area a (oldest_first areas)

insert_area-Perm : (a : AreaEntity) (xs : List AreaEntity) → Perm (insert_area a xs) (a ∷ xs)
unfolding insert_area
insert_area-Perm a [] = Perm.refl (a ∷ [])
insert_area-Perm a (x ∷ xs) = elim (Bool-cases (is_before x a)) [
  | inl older ↦ rw older (Perm.trans (Perm.cons x (insert_area-Perm a xs)) (Perm.swap a x xs))
  | inr newer ↦ rw newer (Perm.refl (a ∷ x ∷ xs))
]

pub oldest_first-Perm : (areas : List AreaEntity) → Perm (oldest_first areas) areas
unfolding oldest_first
oldest_first-Perm [] = Perm.refl []
oldest_first-Perm (a ∷ areas) =
    Perm.trans (insert_area-Perm a (oldest_first areas)) (Perm.cons a (oldest_first-Perm areas))

length-insert_area :
    (a : AreaEntity) (xs : List AreaEntity) → length (insert_area a xs) ≡ length xs + 1
unfolding insert_area
length-insert_area a [] = refl
length-insert_area a (x ∷ xs) = ground (arith, length-insert_area a xs)

pub length-oldest_first : (areas : List AreaEntity) → length (oldest_first areas) ≡ length areas
unfolding oldest_first
length-oldest_first [] = refl
length-oldest_first (a ∷ areas) =
    omega (arith, length-insert_area a (oldest_first areas), length-oldest_first areas)

-- no other area has its id
abbrev Differs : AreaEntity → List AreaEntity → Type 0
Differs a = All (λ x. a.id ≢ x.id)

Differs-of_distinct :
    (a : AreaEntity) (areas : List AreaEntity)
    → contains (map (λ x. x.id) areas) a.id ≡ false
    → Differs a areas
Differs-of_distinct a [] e = tt
Differs-of_distinct a (x ∷ xs) e =
    (λ same. ground (arith, e, eqb_iff x.id a.id, same), Differs-of_distinct a xs (ground arith))

All-insert_area :
    (P : AreaEntity → Type 0) (a : AreaEntity) (xs : List AreaEntity)
    → P a
    → All P xs
    → All P (insert_area a xs)
unfolding insert_area
All-insert_area P a [] p h = (p, tt)
All-insert_area P a (x ∷ xs) p h = elim (Bool-cases (is_before x a)) [
  | inl older ↦ rw older (h.0, All-insert_area P a xs p h.1)
  | inr newer ↦ rw newer (p, h)
]

All-oldest_first :
    (P : AreaEntity → Type 0) (areas : List AreaEntity) → All P areas → All P (oldest_first areas)
unfolding oldest_first
All-oldest_first P [] h = tt
All-oldest_first P (a ∷ areas) h =
    All-insert_area P a (oldest_first areas) h.0 (All-oldest_first P areas h.1)

before-of_ordered :
    (x a : AreaEntity)
    → is_not_after (order_keys x) (order_keys a) ≡ true
    → a.id ≢ x.id
    → is_before x a ≡ true
unfolding is_before
before-of_ordered x a h differs = elim (Bool-cases (eqb a.id x.id)) [
  | inl same ↦ absurd (differs ((eqb_iff a.id x.id).0 same))
  | inr other ↦ ground arith
]

after-of_ordered :
    (a x : AreaEntity) → is_not_after (order_keys a) (order_keys x) ≡ true → is_before x a ≡ false
unfolding is_before
after-of_ordered a x h = ground arith

All-Inserted :
    (P : AreaEntity → Type 0) {a : AreaEntity} {rows more : List AreaEntity}
    → Inserted a rows more
    → All P more
    → P a × All P rows
All-Inserted P at_front h = h
All-Inserted P (behind ins) h = let (p, rest) = All-Inserted P ins h.1 in (p, (h.0, rest))

IsOrdered-Inserted :
    (keys : AreaEntity → List ℕ) {a : AreaEntity} {rows more : List AreaEntity}
    → Inserted a rows more
    → IsOrdered keys more
    → IsOrdered keys rows
IsOrdered-Inserted keys at_front h = h.1
IsOrdered-Inserted keys (behind {x = x} ins) h = (
  (All-Inserted (λ b. is_not_after (keys x) (keys b) ≡ true) ins h.0).1,
  IsOrdered-Inserted keys ins h.1,
)

Inserted-unique :
    {a : AreaEntity} {rows more : List AreaEntity}
    → Inserted a rows more
    → IsOrdered order_keys more
    → Differs a rows
    → more ≡ insert_area a rows
unfolding insert_area
Inserted-unique {a = a} {rows = []} at_front h differs = refl
Inserted-unique {a = a} {rows = x ∷ rows} at_front h differs = rw (after-of_ordered a x h.0.0) refl
Inserted-unique {a = a} (behind {x = x} {rows = rows} ins) h differs =
    let (least, _) =
      All-Inserted (λ b. is_not_after (order_keys x) (order_keys b) ≡ true) ins h.0 in
    rw (before-of_ordered x a least differs.0) (ap (λ l. x ∷ l) (Inserted-unique ins h.1 differs.1))

pub Arranged-unique :
    {rows out : List AreaEntity}
    → Arranged rows out
    → IsOrdered order_keys out
    → IsDistinct (map (λ x. x.id) rows)
    → out ≡ oldest_first rows
unfolding oldest_first
Arranged-unique no_rows h distinct = refl
Arranged-unique (one_more {a = a} {rows = rows} arranged ins) h distinct =
    let same = Arranged-unique arranged (IsOrdered-Inserted order_keys ins h) distinct.1 in
    let differs =
      subst (Differs a) (sym same)
        (All-oldest_first (λ x. a.id ≢ x.id) rows (Differs-of_distinct a rows distinct.0)) in
    Inserted-unique ins h differs ∙ ap (insert_area a) same

IsOlder-of_not_before : (a x : AreaEntity) → is_before x a ≡ false → a.id ≢ x.id → IsOlder a x
unfolding is_before
IsOlder-of_not_before a x h differs = elim (Bool-cases (ltb a.created_at x.created_at)) [
  | inl earlier ↦ inl (ground arith)
  | inr together ↦ elim (Bool-cases (ltb a.id x.id)) [
    | inl smaller ↦ inr (ground arith, ground arith)
    | inr larger ↦ absurd (differs (ground arith))
  ]
]

IsOlder-of_before : (x a : AreaEntity) → is_before x a ≡ true → IsOlder x a
unfolding is_before
IsOlder-of_before x a h = elim (Bool-cases (ltb x.created_at a.created_at)) [
  | inl earlier ↦ inl (ground arith)
  | inr together ↦ inr (ground arith, ground arith)
]

IsOlder-trans : (a b c : AreaEntity) → IsOlder a b → IsOlder b c → IsOlder a c
IsOlder-trans a b c (inl p) (inl q) = inl (omega arith)
IsOlder-trans a b c (inl p) (inr q) = inl (omega (arith, q.0))
IsOlder-trans a b c (inr p) (inl q) = inl (omega (arith, p.0))
IsOlder-trans a b c (inr p) (inr q) = inr (p.0 ∙ q.0, omega (arith, p.1, q.1))

All-IsOlder :
    (a x : AreaEntity) (xs : List AreaEntity)
    → IsOlder a x
    → All (IsOlder x) xs
    → All (IsOlder a) xs
All-IsOlder a x [] h k = tt
All-IsOlder a x (y ∷ ys) h k = (IsOlder-trans a x y h k.0, All-IsOlder a x ys h k.1)

insert_area-IsOldestFirst :
    (a : AreaEntity) (xs : List AreaEntity)
    → Differs a xs
    → IsOldestFirst xs
    → IsOldestFirst (insert_area a xs)
unfolding insert_area
insert_area-IsOldestFirst a [] differs h = (tt, tt)
insert_area-IsOldestFirst a (x ∷ xs) differs h = elim (Bool-cases (is_before x a)) [
  | inl older ↦ rw older (
    All-insert_area (IsOlder x) a xs (IsOlder-of_before x a older) h.0,
    insert_area-IsOldestFirst a xs differs.1 h.1,
  )
  | inr newer ↦
      let first = IsOlder-of_not_before a x newer differs.0 in
      rw newer ((first, All-IsOlder a x xs first h.0), h)
]

pub oldest_first-IsOldestFirst :
    (areas : List AreaEntity)
    → IsDistinct (map (λ x. x.id) areas)
    → IsOldestFirst (oldest_first areas)
unfolding oldest_first
oldest_first-IsOldestFirst [] distinct = tt
oldest_first-IsOldestFirst (a ∷ areas) distinct =
    insert_area-IsOldestFirst a (oldest_first areas)
      (All-oldest_first (λ x. a.id ≢ x.id) areas (Differs-of_distinct a areas distinct.0))
      (oldest_first-IsOldestFirst areas distinct.1)
