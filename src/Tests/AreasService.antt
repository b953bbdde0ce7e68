-- ===== src/Tests/AreasService.antt =====
-- Areas that are created, refused and listed.
use mathlib.Core.List.{Perm}
use geofence_location.Prelude.{
  ℕ, List, All, Bool-cases, inl, inr, if◌then◌else◌, ◌≡◌, refl, true, false, none, some, [], ◌∷◌,
  arith,
}
use geofence_location.Database.{DriverError}
use geofence_location.Areas.Snapshot.{here}
use geofence_location.Areas.Snapshot.Served.{IsShowing}
use geofence_location.Areas.Service.{
  CreateAreaDto, AreaEntity, Creation, bad_request, create_query_failed, refused, AreaStore,
  entity_of, create_transaction, create_area, answer_after_refresh, geometry_of, tables_of,
  list_query, OrderBy, find_all,
}
use geofence_location.Areas.Service.Creating.{created-IsShowing}
use geofence_location.Areas.Service.Paging.{in_pages, in_pages_complete}
use geofence_location.Areas.Service.Arranged.{
  Inserted, at_front, behind, Arranged, no_rows, one_more, is_not_after, IsOrdered, IsOrderBy,
  IsOldestFirst,
}
use geofence_location.Tests.Areas.{area_runs, square, Reach-booted, refreshed, Steps-refreshed}

unfoldable pub service_runs : Unit {0}
unfolding entity_of create_transaction create_area answer_after_refresh tables_of list_query
    find_all area_runs
service_runs = tt

-- PostGIS accepts, no statement fails
abbrev pub smooth : Creation
smooth = record {
  validity = λ boundary. record { valid = true; reason = none };
  query_fault = none;
  save_fault = none;
  version_fault = none;
  commit_fault = none;
  new_id = 11;
  now = 50;
}

abbrev pub crossed : Creation
crossed = record smooth {
  validity = λ boundary. record { valid = false; reason = some "Self-intersection[5 5]" };
}

abbrev pub check_violated : DriverError
check_violated = record { code = "23514"; constraint = some "chk_areas_boundary_valid" }

abbrev second : CreateAreaDto
second = record { name = "yard"; boundary = (square 11 2).boundary }

abbrev pub first_area : AreaEntity
first_area = record { id = 10; name = "gate"; created_at = 40; boundary = (square 10 0).boundary }

abbrev pub one_stored : AreaStore
one_stored = record { rows = first_area ∷ []; version = 1 }

abbrev second_area : AreaEntity
second_area = record { id = 11; name = "yard"; created_at = 50; boundary = second.boundary }

abbrev two_stored : AreaStore
two_stored = record { rows = second_area ∷ first_area ∷ []; version = 2 }

refused_crossed :
    create_area crossed second one_stored
    ≡ (refused (bad_request "invalid polygon: Self-intersection[5 5]"), one_stored)
unfolding service_runs
refused_crossed = refl

refused_save :
    create_area (record smooth { save_fault = some check_violated }) second one_stored
    ≡ (refused (create_query_failed check_violated), one_stored)
unfolding service_runs
refused_save = refl

created-IsShowing_example :
    (true ≡ true)
    × IsShowing (geometry_of second_area ∷ (tables_of one_stored).areas) refreshed.service.snapshot
unfolding service_runs
created-IsShowing_example =
    created-IsShowing smooth second one_stored two_stored second_area refl Reach-booted refl here
      Steps-refreshed refl

-- an order by keys, by insertion
put_by : (AreaEntity → List ℕ) → AreaEntity → List AreaEntity → List AreaEntity
put_by keys a [] = a ∷ []
put_by keys a (x ∷ xs) =
    let rest = put_by keys a xs in if is_not_after (keys a) (keys x) then a ∷ x ∷ xs else x ∷ rest

sorted : OrderBy
unfolding put_by
sorted keys [] = []
sorted keys (a ∷ rows) = put_by keys a (sorted keys rows)

not_after_total : (xs ys : List ℕ) → is_not_after xs ys ≡ false → is_not_after ys xs ≡ true
not_after_total [] ys e = cc
not_after_total (x ∷ xs) [] e = refl
not_after_total (x ∷ xs) (y ∷ ys) e = ground (arith, not_after_total xs ys)

not_after_trans :
    (xs ys zs : List ℕ)
    → is_not_after xs ys ≡ true
    → is_not_after ys zs ≡ true
    → is_not_after xs zs ≡ true
not_after_trans [] ys zs e f = refl
not_after_trans (x ∷ xs) [] zs e f = cc
not_after_trans (x ∷ xs) (y ∷ ys) [] e f = cc
not_after_trans (x ∷ xs) (y ∷ ys) (z ∷ zs) e f = ground (arith, not_after_trans xs ys zs)

module _ (keys : AreaEntity → List ℕ) where
  put_by-Inserted : (a : AreaEntity) (xs : List AreaEntity) → Inserted a xs (put_by keys a xs)
  unfolding put_by
  put_by-Inserted a [] = at_front
  put_by-Inserted a (x ∷ xs) = elim (Bool-cases (is_not_after (keys a) (keys x))) [
    | inl first ↦ rw first at_front
    | inr later ↦ rw later (behind (put_by-Inserted a xs))
  ]

  sorted-Arranged : (rows : List AreaEntity) → Arranged rows (sorted keys rows)
  unfolding sorted
  sorted-Arranged [] = no_rows
  sorted-Arranged (a ∷ rows) =
      one_more (sorted-Arranged rows) (put_by-Inserted a (sorted keys rows))

  abbrev Follow : AreaEntity → List AreaEntity → Type 0
  Follow a = All (λ b. is_not_after (keys a) (keys b) ≡ true)

  All-put_by :
      (x a : AreaEntity) (xs : List AreaEntity)
      → is_not_after (keys x) (keys a) ≡ true
      → Follow x xs
      → Follow x (put_by keys a xs)
  unfolding put_by
  All-put_by x a [] p h = (p, tt)
  All-put_by x a (y ∷ ys) p h = elim (Bool-cases (is_not_after (keys a) (keys y))) [
    | inl first ↦ rw first (p, h)
    | inr later ↦ rw later (h.0, All-put_by x a ys p h.1)
  ]

  Follow-trans :
      (a x : AreaEntity) (xs : List AreaEntity)
      → is_not_after (keys a) (keys x) ≡ true
      → Follow x xs
      → Follow a xs
  Follow-trans a x [] p h = tt
  Follow-trans a x (y ∷ ys) p h =
      (not_after_trans (keys a) (keys x) (keys y) p h.0, Follow-trans a x ys p h.1)

  put_by-IsOrdered :
      (a : AreaEntity) (xs : List AreaEntity)
      → IsOrdered keys xs
      → IsOrdered keys (put_by keys a xs)
  unfolding put_by
  put_by-IsOrdered a [] h = (tt, tt)
  put_by-IsOrdered a (x ∷ xs) h = elim (Bool-cases (is_not_after (keys a) (keys x))) [
    | inl first ↦ rw first ((first, Follow-trans a x xs first h.0), h)
    | inr later ↦
        rw later (
          All-put_by x a xs (not_after_total (keys a) (keys x) later) h.0,
          put_by-IsOrdered a xs h.1,
        )
  ]

  sorted-IsOrdered : (rows : List AreaEntity) → IsOrdered keys (sorted keys rows)
  unfolding sorted
  sorted-IsOrdered [] = tt
  sorted-IsOrdered (a ∷ rows) = put_by-IsOrdered a (sorted keys rows) (sorted-IsOrdered rows)

sorted-IsOrderBy : IsOrderBy sorted
sorted-IsOrderBy = record { arranged = sorted-Arranged; ordered = sorted-IsOrdered }

limit_refused : list_query (some 501) none ≡ none
unfolding service_runs
limit_refused = refl

second_page : find_all sorted (record { limit = 1; offset = 1 }) two_stored ≡ second_area ∷ []
unfolding service_runs put_by sorted
second_page = refl

in_pages_complete_example :
    Perm (in_pages (λ i. sorted) 2 1 0 two_stored) two_stored.rows
    × IsOldestFirst (in_pages (λ i. sorted) 2 1 0 two_stored)
in_pages_complete_example =
    in_pages_complete (λ i. sorted) (λ i. sorted-IsOrderBy) two_stored (refl, (refl, tt)) 2 1
      (omega arith)
