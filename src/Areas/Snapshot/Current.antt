-- ===== src/Areas/Snapshot/Current.antt =====
-- src/areas/area-snapshot.service.ts: how a snapshot relates to the table and to the one before
-- it.
use geofence_location.Prelude.{
  ℕ, ◌<◌, ◌≤◌, ◌≡◌, refl, ◌∙◌, ap, subst, Option, some, List, [], ◌∷◌, ◌++◌, arith, Option-cases,
  inl, inr, length,
}
use geofence_location.Areas.{AreaGeometryRow}
use geofence_location.Areas.Index.{build}
use geofence_location.Areas.Snapshot.{
  AreaTables, Snapshot, building, SnapshotService, enqueue_rebuild, poll, start_rebuild,
  read_version, read_areas, swap, fail_rebuild, State, Step, Reach, commit_step, refresh_step,
  poll_step, start_step, version_step, areas_step, swap_step, fail_step,
}
use geofence_location.Areas.Snapshot.Rebuilds.{swap-cases}
use geofence_location.Areas.Snapshot.Sound.{IsSound, IsRead, poll-cases}
use geofence_location.Areas.Snapshot.Moves.{Steps-IsSound, IsSound-initial}

pub record IsNotBefore (snapshot : Snapshot) (shown : Option Snapshot) : Type 0 where
  pub later : Snapshot
  pub there : shown ≡ some later
  pub order : snapshot.version ≤ later.version

IsRead-all :
    (tables : AreaTables) (rows : List AreaGeometryRow)
    → IsRead tables tables.version rows
    → tables.areas ≡ rows
IsRead-all tables rows r = r.split ∙ ap (λ l. l ++ rows) (empty r.newer (omega (arith, r.label)))
  where
    empty : (l : List AreaGeometryRow) → length l ≤ 0 → l ≡ []
    empty [] h = refl
    empty (row ∷ l) h = absurd (omega arith)

-- A poll that reads the present version and asks for no rebuild has a current snapshot: the index
-- is the one of the rows that are now in the table. No commit goes unnoticed.
pub quiet_poll-current :
    {tables : AreaTables} {c : State}
    → Reach tables c
    → (poll c.tables.version c.service).next ≡ c.service.next
    → (snapshot : Snapshot) × (c.service.snapshot ≡ some snapshot)
      × (build c.tables.areas ≡ some snapshot.index)
unfolding poll enqueue_rebuild
quiet_poll-current {tables} {c} reach quiet = elim (Option-cases c.service.snapshot) [
  | inl nothing ↦ absurd (ground arith)
  | inr (snapshot, there) ↦
      let l = (Steps-IsSound reach (IsSound-initial tables)).shown snapshot there in
      let same : snapshot.version ≡ c.tables.version = ground arith in
      (
        snapshot,
        there,
        ap build (IsRead-all c.tables l.rows (subst (λ v. IsRead c.tables v l.rows) same l.read))
            ∙ l.built,
      )
]

module _ (snapshot : Snapshot) where
  same-IsNotBefore : {shown : Option Snapshot} → shown ≡ some snapshot → IsNotBefore snapshot shown
  same-IsNotBefore there = record { later = snapshot; there = there; order = omega arith }

  swap-IsNotBefore :
      (tables : AreaTables) (s : SnapshotService) (n version : ℕ) (rows : List AreaGeometryRow)
      → IsSound tables s
      → n < s.next
      → s.rebuild n ≡ building version rows
      → s.snapshot ≡ some snapshot
      → IsNotBefore snapshot (swap n version rows s).snapshot
  swap-IsNotBefore tables s n version rows h lt holds there = elim (swap-cases n version rows s) [
    | inl (fails, is) ↦ same-IsNotBefore (ap (λ x. x.snapshot) is ∙ there)
    | inr (index, built, is) ↦ record {
      later = record { version = version; index = index };
      there = ap (λ x. x.snapshot) is;
      order = (h.held n version rows lt holds).1 snapshot there;
    }
  ]

  -- A step keeps the snapshot or swaps it for one with a label that is no older: a slow old rebuild
  -- never overwrites a newer one, and a failed one loses nothing.
  pub Step-IsNotBefore :
      {tables : AreaTables} {c c' : State}
      → Reach tables c
      → Step c c'
      → c.service.snapshot ≡ some snapshot
      → IsNotBefore snapshot c'.service.snapshot
  unfolding enqueue_rebuild start_rebuild read_version read_areas fail_rebuild
  Step-IsNotBefore {tables} {c} reach (commit_step row) there = same-IsNotBefore there
  Step-IsNotBefore {tables} {c} reach refresh_step there = same-IsNotBefore there
  Step-IsNotBefore {tables} {c} reach (poll_step version) there =
      elim (poll-cases version c.service) [
        | inl kept ↦ same-IsNotBefore (ap (λ x. x.snapshot) kept ∙ there)
        | inr asked ↦ same-IsNotBefore (ap (λ x. x.snapshot) asked ∙ there)
      ]
  Step-IsNotBefore {tables} {c} reach (start_step n lt waits may) there = same-IsNotBefore there
  Step-IsNotBefore {tables} {c} reach (version_step n lt e) there = same-IsNotBefore there
  Step-IsNotBefore {tables} {c} reach (areas_step n version lt e) there = same-IsNotBefore there
  Step-IsNotBefore {tables} {c} reach (swap_step n version rows lt e) there =
      swap-IsNotBefore c.tables c.service n version rows
        (Steps-IsSound reach (IsSound-initial tables)) lt e there
  Step-IsNotBefore {tables} {c} reach (fail_step n lt e going) there = same-IsNotBefore there
