-- ===== src/Areas/Service/Paging.antt =====
-- The pages of `findAll` in src/areas/areas.service.ts, each in an order that PostgreSQL chooses anew.
use mathlib.Core.List.{Perm}
use geofence_location.Prelude.{
  ℕ, zero, suc, ◌+◌, ◌*◌, ◌≤◌, ◌≡◌, refl, sym, ap, subst, ◌∙◌, List, [], ◌∷◌, ◌++◌, map, IsDistinct,
  length, take, skip, arith,
}
use geofence_location.Areas.Service.{AreaEntity, AreaStore, order_keys, OrderBy, find_all}
use geofence_location.Areas.Service.Arranged.{
  IsOrderBy, IsOldestFirst, oldest_first, oldest_first-Perm, length-oldest_first, Arranged-unique,
  oldest_first-IsOldestFirst,
}

-- `pages` pages in a row, of `limit` rows each, from `offset` on, the i-th last by `order_by i`
abbrev pub in_pages : (ℕ → OrderBy) → ℕ → ℕ → ℕ → AreaStore → List AreaEntity
in_pages order_by zero limit offset store = []
in_pages order_by (suc pages) limit offset store =
    find_all (order_by pages) (record { limit = limit; offset = offset }) store
    ++ in_pages order_by pages limit (offset + limit) store

take-skip : {A : Type 0} (n : ℕ) (xs : List A) → take n xs ++ skip n xs ≡ xs
take-skip zero xs = refl
take-skip (suc n) [] = refl
take-skip (suc n) (x ∷ xs) = ap (λ l. x ∷ l) (take-skip n xs)

skip-nil : {A : Type 0} (n : ℕ) → skip {A = A} n [] ≡ []
skip-nil zero = refl
skip-nil (suc n) = refl

skip-add : {A : Type 0} (n m : ℕ) (xs : List A) → skip (n + m) xs ≡ skip m (skip n xs)
skip-add zero m xs = ap (λ k. skip k xs) (omega arith)
skip-add (suc n) m [] = skip-nil (suc n + m) ∙ sym (skip-nil m)
skip-add (suc n) m (x ∷ xs) =
    let e : suc n + m ≡ suc (n + m) = omega arith in ap (λ k. skip k (x ∷ xs)) e ∙ skip-add n m xs

skip-all : {A : Type 0} (n : ℕ) (xs : List A) → length xs ≤ n → skip n xs ≡ []
skip-all zero [] h = refl
skip-all zero (x ∷ xs) h = absurd (omega arith)
skip-all (suc n) [] h = refl
skip-all (suc n) (x ∷ xs) h = skip-all n xs (omega arith)

module _ (order_by : ℕ → OrderBy) (law : (i : ℕ) → IsOrderBy (order_by i)) (store : AreaStore)
    (distinct : IsDistinct (map (λ x. x.id) store.rows)) where
  in_pages-eq-skip :
      (pages limit offset : ℕ)
      → length (oldest_first store.rows) ≤ offset + pages * limit
      → in_pages order_by pages limit offset store ≡ skip offset (oldest_first store.rows)
  unfolding find_all
  in_pages-eq-skip zero limit offset h =
      sym (skip-all offset (oldest_first store.rows) (omega arith))
  in_pages-eq-skip (suc pages) limit offset h =
      let rows = oldest_first store.rows in
      let same : order_by pages order_keys store.rows ≡ rows =
        Arranged-unique ((law pages).arranged order_keys store.rows)
          ((law pages).ordered order_keys store.rows) distinct in
      ap (λ l. take limit (skip offset l) ++ in_pages order_by pages limit (offset + limit) store)
        same
      ∙ ap (λ l. take limit (skip offset rows) ++ l)
          (in_pages-eq-skip pages limit (offset + limit) (omega arith) ∙ skip-add offset limit rows)
      ∙ take-skip limit (skip offset rows)

  -- Where PostgreSQL sorts each page's rows anew, and rows with equal keys in any order, pages of one
  -- limit, each asked for where the one before it ended, hold together every stored area exactly
  -- once, oldest first and those of one time by their ids, as soon as they have room for all of them,
  -- if the ids are distinct.
  pub in_pages_complete :
      (pages limit : ℕ)
      → length store.rows ≤ pages * limit
      → Perm (in_pages order_by pages limit 0 store) store.rows
        × IsOldestFirst (in_pages order_by pages limit 0 store)
  in_pages_complete pages limit room =
      let all =
        in_pages-eq-skip pages limit 0 (omega (arith, room, length-oldest_first store.rows)) in
      (
        subst (λ l. Perm l store.rows) (sym all) (oldest_first-Perm store.rows),
        subst IsOldestFirst (sym all) (oldest_first-IsOldestFirst store.rows distinct),
      )
