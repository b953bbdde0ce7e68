-- ===== src/Service/Laws.antt =====
-- Inversion of an action that returned, and of one that threw.
use geofence_location.Prelude.{◌≡◌, refl, ◌⊎◌, inl, inr}
use geofence_location.Database.{Failure, Result, ok, err}
use geofence_location.Service.{World, Action, continue, ◌>>=◌}

module _ {A B : Type 0} (m : Action A) (f : A → Action B) (w : World) where
  pub >>=-eq-ok :
      {b : B} {w₂ : World}
      → (m >>= f) w ≡ (ok b, w₂)
      → (a : A) × (w₁ : World) × (m w ≡ (ok a, w₁)) × (f a w₁ ≡ (ok b, w₂))
  >>=-eq-ok {b} {w₂} = go (m w).0 (m w).1 refl
    where
      go :
          (r : Result A) (w₁ : World)
          → m w ≡ (r, w₁)
          → continue r f w₁ ≡ (ok b, w₂)
          → (a : A) × (w₁ : World) × (m w ≡ (ok a, w₁)) × (f a w₁ ≡ (ok b, w₂))
      go (ok a) w₁ e h = (a, w₁, e, h)
      go (err x) w₁ e h = cc

  pub >>=-eq-err :
      {x : Failure} {w₂ : World}
      → (m >>= f) w ≡ (err x, w₂)
      → (m w ≡ (err x, w₂)) ⊎ ((a : A) × (w₁ : World) × (m w ≡ (ok a, w₁)) × (f a w₁ ≡ (err x, w₂)))
  >>=-eq-err {x} {w₂} = go (m w).0 (m w).1 refl
    where
      go :
          (r : Result A) (w₁ : World)
          → m w ≡ (r, w₁)
          → continue r f w₁ ≡ (err x, w₂)
          → (m w ≡ (err x, w₂))
            ⊎ ((a : A) × (w₁ : World) × (m w ≡ (ok a, w₁)) × (f a w₁ ≡ (err x, w₂)))
      go (ok a) w₁ e h = inr (a, w₁, e, h)
      go (err y) w₁ e h = inl (cc)
