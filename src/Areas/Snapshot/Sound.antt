-- ===== src/Areas/Snapshot/Sound.antt =====
-- src/areas/area-snapshot.service.ts: the invariant of labels and data, and the steps around it.
use geofence_location.Prelude.{
  ℕ, ◌+◌, ◌<◌, ◌≤◌, ◌≡◌, ◌⊎◌, sym, ap, subst, false, Option, some, List, ◌∷◌, ◌++◌, arith, eqb, put,
  Bool-cases, Option-cases, inl, inr, length,
}
use geofence_location.Areas.{AreaGeometryRow}
use geofence_location.Areas.Index.{build}
use geofence_location.Areas.Snapshot.{
  AreaTables, commit_area, Snapshot, Rebuild, reading_areas, building, SnapshotService,
  enqueue_rebuild, poll, is_over,
}
use geofence_location.Areas.Snapshot.Rebuilds.{IsOrdered, AllOver, IsOrdered-put, IsOrdered-queue}

-- `rows` were in the table at some time, and since the version was `version` no fewer commits were
-- made than the rows lack.
pub record IsRead (tables : AreaTables) (version : ℕ) (rows : List AreaGeometryRow) : Type 0 where
  pub newer : List AreaGeometryRow
  pub split : tables.areas ≡ newer ++ rows
  pub label : length newer + version ≤ tables.version

pub record IsShown (tables : AreaTables) (snapshot : Snapshot) : Type 0 where
  pub rows : List AreaGeometryRow
  pub built : build rows ≡ some snapshot.index
  pub read : IsRead tables snapshot.version rows

abbrev pub IsBehind : Option Snapshot → ℕ → Type 0
IsBehind shown version = (snapshot : Snapshot) → shown ≡ some snapshot → snapshot.version ≤ version

pub record IsSound (tables : AreaTables) (s : SnapshotService) : Type 0 where
  pub ordered : IsOrdered s.next s.rebuild
  pub asked :
      (n version : ℕ)
      → n < s.next
      → s.rebuild n ≡ reading_areas version
      → (version ≤ tables.version) × IsBehind s.snapshot version
  pub held :
      (n version : ℕ) (rows : List AreaGeometryRow)
      → n < s.next
      → s.rebuild n ≡ building version rows
      → IsRead tables version rows × IsBehind s.snapshot version
  pub shown : (snapshot : Snapshot) → s.snapshot ≡ some snapshot → IsShown tables snapshot

IsRead-commit :
    (row : AreaGeometryRow) (tables : AreaTables) (version : ℕ) (rows : List AreaGeometryRow)
    → IsRead tables version rows
    → IsRead (commit_area row tables) version rows
unfolding commit_area
IsRead-commit row tables version rows r = record {
  newer = row ∷ r.newer;
  split = ap (λ l. row ∷ l) r.split;
  label = omega (arith, r.label);
}

pub IsSound-commit :
    (row : AreaGeometryRow) (tables : AreaTables) (s : SnapshotService)
    → IsSound tables s
    → IsSound (commit_area row tables) s
unfolding commit_area
IsSound-commit row tables s h = record {
  ordered = h.ordered;
  asked = λ n v lt e. let (le, behind) = h.asked n v lt e in (omega arith, behind);
  held = λ n v rows lt e.
      let (read, behind) = h.held n v rows lt e in (IsRead-commit row tables v rows read, behind);
  shown = λ snapshot e.
      let l = h.shown snapshot e in
      record {
        rows = l.rows;
        built = l.built;
        read = IsRead-commit row tables snapshot.version l.rows l.read;
      };
}

pub poll-cases :
    (version : ℕ) (s : SnapshotService)
    → (poll version s ≡ s) ⊎ (poll version s ≡ enqueue_rebuild s)
unfolding poll
poll-cases version s = elim (Option-cases s.snapshot) [
  | inl nothing ↦ inr (ground arith)
  | inr (snapshot, there) ↦ elim (Bool-cases (eqb version snapshot.version)) [
    | inl same ↦ inl (ground arith)
    | inr moved ↦ inr (ground arith)
  ]
]

module _ (tables : AreaTables) (s : SnapshotService) (h : IsSound tables s) where
  pub IsSound-enqueue : IsSound tables (enqueue_rebuild s)
  unfolding enqueue_rebuild
  IsSound-enqueue = record {
    ordered = IsOrdered-queue s.next s.rebuild h.ordered;
    asked = λ n v lt e. h.asked n v (ground arith) (ground arith);
    held = λ n v rows lt e. h.held n v rows (ground arith) (ground arith);
    shown = h.shown;
  }

  pub IsSound-poll : (version : ℕ) → IsSound tables (poll version s)
  IsSound-poll version = elim (poll-cases version s) [
    | inl kept ↦ subst (IsSound tables) (sym kept) h
    | inr asked ↦ subst (IsSound tables) (sym asked) IsSound-enqueue
  ]

  -- a rebuild moves on and leaves the snapshot as it is
  module _ (n : ℕ) (x : Rebuild) (lt : n < s.next) (going : is_over (s.rebuild n) ≡ false)
      (before : AllOver s.rebuild n) where
    pub IsSound-put :
        ((version : ℕ)
          → x ≡ reading_areas version
          → (version ≤ tables.version) × IsBehind s.snapshot version)
        → ((version : ℕ) (rows : List AreaGeometryRow)
            → x ≡ building version rows
            → IsRead tables version rows × IsBehind s.snapshot version)
        → IsSound tables (record s { rebuild = put n x s.rebuild })
    IsSound-put asks holds = record {
      ordered = IsOrdered-put s.next s.rebuild h.ordered n x lt going before;
      asked = λ m v lm e. elim (Bool-cases (eqb m n)) [
        | inl same ↦ asks v (ground arith)
        | inr other ↦ h.asked m v lm (ground arith)
      ];
      held = λ m v rows lm e. elim (Bool-cases (eqb m n)) [
        | inl same ↦ holds v rows (ground arith)
        | inr other ↦ h.held m v rows lm (ground arith)
      ];
      shown = h.shown;
    }
