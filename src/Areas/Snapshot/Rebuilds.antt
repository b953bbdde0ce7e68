-- ===== src/Areas/Snapshot/Rebuilds.antt =====
-- `rebuildChain` of src/areas/area-snapshot.service.ts: the order of the rebuilds.
use geofence_location.Prelude.{
  ℕ, zero, suc, ◌+◌, ◌<◌, ◌≡◌, ◌≢◌, true, false, some, none, List, arith, eqb, put, Bool-cases,
  Option-cases, ◌⊎◌, inl, inr,
}
use geofence_location.Areas.{AreaGeometryRow}
use geofence_location.Areas.Index.{AreaSpatialIndex, build}
use geofence_location.Areas.Snapshot.{
  Rebuild, queued, fulfilled, rejected, SnapshotService, is_over, may_start, swap,
}

abbrev pub AllOver : (ℕ → Rebuild) → ℕ → Type 0
AllOver rebuild n = (m : ℕ) → m < n → is_over (rebuild m) ≡ true

-- A rebuild that has started has only ended ones before it.
abbrev pub IsOrdered : ℕ → (ℕ → Rebuild) → Type 0
IsOrdered next rebuild = (n : ℕ) → n < next → rebuild n ≢ queued → AllOver rebuild n

module _ (next : ℕ) (rebuild : ℕ → Rebuild) (h : IsOrdered next rebuild) where
  -- a rebuild that may move on, moves on
  pub IsOrdered-put :
      (n : ℕ) (x : Rebuild)
      → n < next
      → is_over (rebuild n) ≡ false
      → AllOver rebuild n
      → IsOrdered next (put n x rebuild)
  IsOrdered-put n x lt going before p hp started m hm = elim (Bool-cases (eqb p n)) [
    | inl same ↦ ground (arith, before m)
    | inr other ↦ elim (Bool-cases (eqb m n)) [
      | inl there ↦ ground (arith, h p hp (λ e. started (ground arith)) m hm)
      | inr elsewhere ↦ ground (arith, h p hp (λ e. started (ground arith)) m hm)
    ]
  ]

  pub IsOrdered-queue : IsOrdered (next + 1) (put next queued rebuild)
  IsOrdered-queue p hp started m hm = elim (Bool-cases (eqb p next)) [
    | inl same ↦ absurd (started (ground arith))
    | inr other ↦ ground (arith, h p (ground arith) (λ e. started (ground arith)) m hm)
  ]

  -- at any time one rebuild is going
  pub going-alone :
      (n m : ℕ)
      → n < next
      → m < next
      → rebuild n ≢ queued
      → rebuild m ≢ queued
      → is_over (rebuild n) ≡ false
      → is_over (rebuild m) ≡ false
      → n ≡ m
  going-alone n m ln lm sn sm gn gm = ground (arith, h n ln sn m, h m lm sm n)

pub AllOver-of_may_start :
    (s : SnapshotService) (n : ℕ)
    → IsOrdered s.next s.rebuild
    → n < s.next
    → may_start s n ≡ true
    → AllOver s.rebuild n
unfolding may_start is_over
AllOver-of_may_start s zero h lt e m hm = absurd (omega arith)
AllOver-of_may_start s (suc n) h lt e m hm = elim (Bool-cases (eqb m n)) [
  | inl same ↦ ground arith
  | inr other ↦ h n (ground arith) (λ q. cc (e, q)) m (ground arith)
]

pub swap-cases :
    (n version : ℕ) (rows : List AreaGeometryRow) (s : SnapshotService)
    → ((build rows ≡ none)
        × (swap n version rows s ≡ record s { rebuild = put n rejected s.rebuild }))
      ⊎ ((index : AreaSpatialIndex) × (build rows ≡ some index)
          × (swap n version rows s ≡ record s {
            snapshot = some (record { version = version; index = index });
            rebuild = put n fulfilled s.rebuild;
          }))
unfolding swap
swap-cases n version rows s = elim (Option-cases (build rows)) [
  | inl fails ↦ inl (fails, ground arith)
  | inr (index, built) ↦ inr (index, built, ground arith)
]
