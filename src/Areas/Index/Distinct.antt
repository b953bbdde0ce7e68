-- ===== src/Areas/Index/Distinct.antt =====
-- The ids in an answer of src/areas/spatial-index.ts.
use mathlib.Core.List.{Permᴰ}
use mathlib.Core.Logic.{∥∥₁_elim}
use geofence_location.Prelude.{
  ℕ, ◌≡◌, refl, ◌∙◌, Bool, false, List, [], ◌∷◌, map, arith, filter, contains, IsDistinct, some,
  Bool-cases, inl, inr,
}
use geofence_location.Areas.{Position, AreaGeometryRow}
use geofence_location.Areas.Index.{AreaSpatialIndex, build, Libraries, find_covering_area_ids}
use geofence_location.Areas.Index.Covering.{IsDocumented, covering, find_covering_area_ids-Perm}

contains-Permᴰ : {xs ys : List ℕ} (b : ℕ) → Permᴰ xs ys → contains xs b ≡ contains ys b
contains-Permᴰ b Permᴰ.nil = refl
contains-Permᴰ b (Permᴰ.cons e p) = ground (arith, e, contains-Permᴰ b p)
contains-Permᴰ b (Permᴰ.swap e f) = ground (arith, e, f)
contains-Permᴰ b (Permᴰ.trans p q) = contains-Permᴰ b p ∙ contains-Permᴰ b q

IsDistinct-Permᴰ : {xs ys : List ℕ} → Permᴰ xs ys → IsDistinct ys → IsDistinct xs
IsDistinct-Permᴰ Permᴰ.nil h = tt
IsDistinct-Permᴰ (Permᴰ.cons {a = a} e p) h =
    (ground (arith, e, contains-Permᴰ a p), IsDistinct-Permᴰ p h.1)
IsDistinct-Permᴰ (Permᴰ.swap e f) h = (ground (arith, e, f), (ground (arith, e, f), h.1.1))
IsDistinct-Permᴰ (Permᴰ.trans p q) h = IsDistinct-Permᴰ p (IsDistinct-Permᴰ q h)

IsDistinct-prop : (xs : List ℕ) → IsProp (IsDistinct xs)
IsDistinct-prop [] = hlevel
IsDistinct-prop (x ∷ xs) = let rest = IsDistinct-prop xs in hlevel

ids : List AreaGeometryRow → List ℕ
ids rows = map (λ row. row.id) rows

module _ (test : AreaGeometryRow → Bool) where
  contains-ids-filter :
      (rows : List AreaGeometryRow) (b : ℕ)
      → contains (ids rows) b ≡ false
      → contains (ids (filter test rows)) b ≡ false
  unfolding ids
  contains-ids-filter [] b h = refl
  contains-ids-filter (row ∷ rows) b h = ground (arith, contains-ids-filter rows b)

  IsDistinct-ids-filter :
      (rows : List AreaGeometryRow) → IsDistinct (ids rows) → IsDistinct (ids (filter test rows))
  unfolding ids
  IsDistinct-ids-filter [] h = tt
  IsDistinct-ids-filter (row ∷ rows) h = elim (Bool-cases (test row)) [
    | inl here ↦ rw here ((contains-ids-filter rows row.id h.0, IsDistinct-ids-filter rows h.1))
    | inr gone ↦ rw gone (IsDistinct-ids-filter rows h.1)
  ]

-- Where the rows of the areas have distinct ids, an answer names no area twice.
pub find_covering_area_ids-IsDistinct :
    (lib : Libraries) (doc : IsDocumented lib) (p : Position) (rows : List AreaGeometryRow)
    (index : AreaSpatialIndex)
    → build rows ≡ some index
    → IsDistinct (map (λ row. row.id) rows)
    → IsDistinct (find_covering_area_ids lib index p.lng p.lat)
unfolding ids
find_covering_area_ids-IsDistinct lib doc p rows index e h =
    ∥∥₁_elim (find_covering_area_ids-Perm lib doc p rows index e) (IsDistinct-prop _) (λ d.
      IsDistinct-Permᴰ d
        (IsDistinct-ids-filter (λ row. lib.boolean_point_in_polygon p row.boundary) rows h))

pub find_covering_area_ids-contains :
    (lib : Libraries) (doc : IsDocumented lib) (p : Position) (rows : List AreaGeometryRow)
    (index : AreaSpatialIndex) (b : ℕ)
    → build rows ≡ some index
    → contains (find_covering_area_ids lib index p.lng p.lat) b ≡ contains (covering lib p rows) b
find_covering_area_ids-contains lib doc p rows index b e =
    ∥∥₁_elim (find_covering_area_ids-Perm lib doc p rows index e) same_prop (contains-Permᴰ b)
  where
    same_prop : IsProp (
        contains (find_covering_area_ids lib index p.lng p.lat) b
        ≡ contains (covering lib p rows) b)
    same_prop = hlevel
