-- ===== src/Areas/Index/Extent.antt =====
-- The bounding box of `toIndexedArea` in src/areas/spatial-index.ts.
use geofence_location.Prelude.{
  ◌≡◌, refl, Bool, true, false, not, List, [], ◌∷◌, Number, pos, negsuc, ltb_ℤ, arith, any, inl,
  inr, Bool-cases,
}
use geofence_location.Areas.{Position}
use geofence_location.Areas.Index.{
  Bound, minus_infinity, infinity, finite, ltb_Bound, leb_Bound, Box, extend, extend_all,
}

ltb_ℤ-trans : (a b c : Number) → ltb_ℤ b a ≡ false → ltb_ℤ c b ≡ false → ltb_ℤ c a ≡ false
ltb_ℤ-trans (pos a) (pos b) (pos c) h k = ground arith
ltb_ℤ-trans (pos a) (pos b) (negsuc c) h k = ground arith
ltb_ℤ-trans (pos a) (negsuc b) (pos c) h k = ground arith
ltb_ℤ-trans (pos a) (negsuc b) (negsuc c) h k = ground arith
ltb_ℤ-trans (negsuc a) (pos b) (pos c) h k = ground arith
ltb_ℤ-trans (negsuc a) (pos b) (negsuc c) h k = ground arith
ltb_ℤ-trans (negsuc a) (negsuc b) (pos c) h k = ground arith
ltb_ℤ-trans (negsuc a) (negsuc b) (negsuc c) h k = ground arith

ltb_ℤ-asym : (a b : Number) → ltb_ℤ a b ≡ true → ltb_ℤ b a ≡ false
ltb_ℤ-asym (pos a) (pos b) h = ground arith
ltb_ℤ-asym (pos a) (negsuc b) h = ground arith
ltb_ℤ-asym (negsuc a) (pos b) h = ground arith
ltb_ℤ-asym (negsuc a) (negsuc b) h = ground arith

ltb_ℤ-irrefl : (a : Number) → ltb_ℤ a a ≡ false
ltb_ℤ-irrefl (pos a) = ground arith
ltb_ℤ-irrefl (negsuc a) = ground arith

leb_Bound-trans :
    (a b c : Bound) → leb_Bound a b ≡ true → leb_Bound b c ≡ true → leb_Bound a c ≡ true
unfolding leb_Bound
leb_Bound-trans minus_infinity b minus_infinity h k = refl
leb_Bound-trans minus_infinity b infinity h k = refl
leb_Bound-trans minus_infinity b (finite c) h k = refl
leb_Bound-trans infinity minus_infinity c h k = ground arith
leb_Bound-trans infinity infinity c h k = k
leb_Bound-trans infinity (finite b) c h k = ground arith
leb_Bound-trans (finite a) minus_infinity c h k = ground arith
leb_Bound-trans (finite a) infinity minus_infinity h k = ground arith
leb_Bound-trans (finite a) infinity infinity h k = refl
leb_Bound-trans (finite a) infinity (finite c) h k = ground arith
leb_Bound-trans (finite a) (finite b) minus_infinity h k = ground arith
leb_Bound-trans (finite a) (finite b) infinity h k = refl
leb_Bound-trans (finite a) (finite b) (finite c) h k = ground (arith, ltb_ℤ-trans a b c)

leb_Bound-refl : (a : Bound) → leb_Bound a a ≡ true
unfolding leb_Bound
leb_Bound-refl minus_infinity = refl
leb_Bound-refl infinity = refl
leb_Bound-refl (finite a) = ground (arith, ltb_ℤ-irrefl a)

ltb_Bound-asym : (a b : Bound) → ltb_Bound a b ≡ true → leb_Bound a b ≡ true
unfolding leb_Bound
ltb_Bound-asym minus_infinity minus_infinity h = refl
ltb_Bound-asym minus_infinity infinity h = refl
ltb_Bound-asym minus_infinity (finite b) h = refl
ltb_Bound-asym infinity b h = ground arith
ltb_Bound-asym (finite a) minus_infinity h = ground arith
ltb_Bound-asym (finite a) infinity h = refl
ltb_Bound-asym (finite a) (finite b) h = ground (arith, ltb_ℤ-asym a b)

module _ (p : Position) where
  -- `p` is in the box
  pub record IsInside (box : Box) : Type 0 where
    pub west : leb_Bound box.min_x (finite p.lng) ≡ true
    pub south : leb_Bound box.min_y (finite p.lat) ≡ true
    pub east : leb_Bound (finite p.lng) box.max_x ≡ true
    pub north : leb_Bound (finite p.lat) box.max_y ≡ true

-- The sides after a round lie no further in than before, and `p` is between them.
extend-sides :
    (p : Position) (box : Box)
    → (leb_Bound (extend p box).min_x box.min_x ≡ true)
      × (leb_Bound (extend p box).min_y box.min_y ≡ true)
      × (leb_Bound box.max_x (extend p box).max_x ≡ true)
      × (leb_Bound box.max_y (extend p box).max_y ≡ true)
      × IsInside p (extend p box)
unfolding extend leb_Bound
extend-sides p box = (
  ground (arith, less (finite p.lng) box.min_x, leb_Bound-refl box.min_x),
  ground (arith, less (finite p.lat) box.min_y, leb_Bound-refl box.min_y),
  ground (arith, less box.max_x (finite p.lng), leb_Bound-refl box.max_x),
  ground (arith, less box.max_y (finite p.lat), leb_Bound-refl box.max_y),
  record {
    west = ground (arith, leb_Bound-refl (finite p.lng));
    south = ground (arith, leb_Bound-refl (finite p.lat));
    east = ground (arith, leb_Bound-refl (finite p.lng));
    north = ground (arith, leb_Bound-refl (finite p.lat));
  },
)
  where
    less : (a b : Bound) → ltb_Bound a b ≡ true → leb_Bound a b ≡ true
    less a b = ltb_Bound-asym a b

IsInside-extend : (p q : Position) (box : Box) → IsInside p box → IsInside p (extend q box)
IsInside-extend p q box h =
    let (west, south, east, north, _) = extend-sides q box in
    record {
      west = leb_Bound-trans _ _ _ west h.west;
      south = leb_Bound-trans _ _ _ south h.south;
      east = leb_Bound-trans _ _ _ h.east east;
      north = leb_Bound-trans _ _ _ h.north north;
    }

IsInside-extend_all :
    (p : Position) (ring : List Position) (box : Box)
    → IsInside p box
    → IsInside p (extend_all ring box)
unfolding extend_all
IsInside-extend_all p [] box h = h
IsInside-extend_all p (q ∷ ring) box h =
    IsInside-extend_all p ring (extend q box) (IsInside-extend p q box h)

-- a vertex that passes a test is in the box of the ring
vertex-IsInside :
    (test : Position → Bool) (ring : List Position) (box : Box)
    → any test ring ≡ true
    → (v : Position) × (test v ≡ true) × IsInside v (extend_all ring box)
unfolding extend_all
vertex-IsInside test [] box h = cc
vertex-IsInside test (v ∷ ring) box h = elim (Bool-cases (test v)) [
  | inl passes ↦ (
    v,
    passes,
    IsInside-extend_all v ring (extend v box)
        (let (_, _, _, _, inside) = extend-sides v box in inside),
  )
  | inr fails ↦ vertex-IsInside test ring (extend v box) (ground arith)
]

-- The ring reaches at least as far as `p` on each side.
pub record IsBetween (ring : List Position) (p : Position) : Type 0 where
  pub west : any (λ v. not (ltb_ℤ p.lng v.lng)) ring ≡ true
  pub south : any (λ v. not (ltb_ℤ p.lat v.lat)) ring ≡ true
  pub east : any (λ v. not (ltb_ℤ v.lng p.lng)) ring ≡ true
  pub north : any (λ v. not (ltb_ℤ v.lat p.lat)) ring ≡ true

pub IsInside-of_between :
    (ring : List Position) (box : Box) (p : Position)
    → IsBetween ring p
    → IsInside p (extend_all ring box)
unfolding leb_Bound
IsInside-of_between ring box p h =
    let (w, ww, hw) = vertex-IsInside _ ring box h.west in
    let (s, ss, hs) = vertex-IsInside _ ring box h.south in
    let (e, ee, he) = vertex-IsInside _ ring box h.east in
    let (n, nn, hn) = vertex-IsInside _ ring box h.north in
    record {
      west = leb_Bound-trans _ (finite w.lng) (finite p.lng) hw.west ww;
      south = leb_Bound-trans _ (finite s.lat) (finite p.lat) hs.south ss;
      east = leb_Bound-trans (finite p.lng) (finite e.lng) _ ee he.east;
      north = leb_Bound-trans (finite p.lat) (finite n.lat) _ nn hn.north;
    }
