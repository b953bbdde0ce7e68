-- ===== src/Locations/Coherence.antt =====
-- The worker's memory of src/presence against the presence table, and the hints drawn from it.
use geofence_location.Prelude.{
  ℕ, String, ◌≡◌, refl, sym, ◌∙◌, ap, subst, true, false, ◌⊎◌, inl, inr, Option, none, some, List,
  arith, ◌==◌, eq_iff, lookup-insert, contains,
}
use geofence_location.Database.{PresenceRow, ok, is_present, area_ids_of}
use geofence_location.Database.Laws.{contains-area_ids_of}
use geofence_location.Presence.{PresenceMemory}
use geofence_location.Service.{World, Surroundings, remember_in, recall}
use geofence_location.Locations.Report.{Hint, previous_hint, read_presence_unlocked}

-- What is remembered of a user is the user's presence.
pub record IsCoherent (memory : Option PresenceMemory) (rows : List PresenceRow) : Type 0 where
  pub agrees :
      (u : String) (xs : List ℕ)
      → recall memory u ≡ some xs
      → (b : ℕ) → contains xs b ≡ is_present u b rows

-- A list that holds the areas where the user is present.
abbrev pub IsPresenceOf : String → List PresenceRow → List ℕ → Type 0
IsPresenceOf u rows xs = (b : ℕ) → contains xs b ≡ is_present u b rows

recall-remember_in :
    (u v : String) (xs ys : List ℕ) (memory : Option PresenceMemory)
    → recall (remember_in u xs memory) v ≡ some ys
    → ((u == v ≡ true) × (xs ≡ ys)) ⊎ ((u == v ≡ false) × (recall memory v ≡ some ys))
unfolding recall remember_in
recall-remember_in u v xs ys none h = ground arith
recall-remember_in u v xs ys (some m) h = ground (arith, lookup-insert u v xs m)

-- To remember the truth of a user keeps the memory coherent.
pub IsCoherent-remember :
    (u : String) (xs : List ℕ) (memory : Option PresenceMemory) (rows rows' : List PresenceRow)
    → IsCoherent memory rows
    → IsPresenceOf u rows' xs
    → ((v : String) (b : ℕ) → u == v ≡ false → is_present v b rows' ≡ is_present v b rows)
    → IsCoherent (remember_in u xs memory) rows'
IsCoherent-remember u xs memory rows rows' h truth others = record {
  agrees = λ v ys e b. elim (recall-remember_in u v xs ys memory e) [
    | inl (same, list) ↦ ground (arith, truth b, eq_iff u v)
    | inr (other, old) ↦ ground (arith, h.agrees v ys old b, others v b other)
  ];
}

module _ (s : Surroundings) (u : String) where
  pub record IsTrueHint (w : World) (hint : Hint) (w₁ : World) : Type 0 where
    pub database : w₁.database ≡ w.database
    pub coherent : IsCoherent w₁.memory w.database.presence
    pub previous : IsPresenceOf u w.database.presence hint.previous
    pub cache_read : hint.cache_read ≡ none

  -- With a memory the hint comes from it, or from the table on first sight, and Redis is not asked.
  previous_hint-eq-ok :
      (w : World) (memory : PresenceMemory) {hint : Hint} {w₁ : World}
      → w.memory ≡ some memory
      → previous_hint s u w ≡ (ok hint, w₁)
      → (hint.cache_read ≡ none)
        × (((recall w.memory u ≡ some hint.previous) × (w₁ ≡ w))
            ⊎ ((hint.previous ≡ area_ids_of u w.database.presence)
                × (w₁ ≡ record w { memory = remember_in u hint.previous w.memory })))
  unfolding previous_hint recall read_presence_unlocked
  previous_hint-eq-ok w memory {hint} {w₁} worker e = (ground arith, ground arith)

  pub previous_hint-IsTrueHint :
      (w : World) (memory : PresenceMemory) {hint : Hint} {w₁ : World}
      → w.memory ≡ some memory
      → IsCoherent w.memory w.database.presence
      → previous_hint s u w ≡ (ok hint, w₁)
      → IsTrueHint w hint w₁
  previous_hint-IsTrueHint w memory {hint} {w₁} worker h e =
      let (none_read, found) = previous_hint-eq-ok w memory worker e in
      elim found [
        | inl (known, same) ↦ record {
          database = ap (λ x. x.database) same;
          coherent = subst (λ x. IsCoherent x.memory w.database.presence) (sym same) h;
          previous = h.agrees u hint.previous known;
          cache_read = none_read;
        }
        | inr (read, same) ↦
            let truth : IsPresenceOf u w.database.presence hint.previous =
              λ b. ap (λ l. contains l b) read ∙ contains-area_ids_of u b w.database.presence in
            record {
              database = ap (λ x. x.database) same;
              coherent =
                  subst (λ x. IsCoherent x.memory w.database.presence) (sym same)
                    (IsCoherent-remember u hint.previous w.memory w.database.presence
                      w.database.presence h truth (λ v b _. refl));
              previous = truth;
              cache_read = none_read;
            }
      ]
