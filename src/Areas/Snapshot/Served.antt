-- ===== src/Areas/Snapshot/Served.antt =====
-- `refreshNow` of src/areas/area-snapshot.service.ts: what the snapshot holds once it has
-- resolved.
use geofence_location.Prelude.{
  ℕ, ◌<◌, ◌≤◌, ◌≡◌, ◌≢◌, refl, sym, ap, subst, Option, some, List, [], ◌∷◌, ◌++◌, arith, eqb, put,
  Bool-cases, inl, inr,
}
use geofence_location.Areas.{AreaGeometryRow}
use geofence_location.Areas.Index.{AreaSpatialIndex, build}
use geofence_location.Areas.Snapshot.{
  AreaTables, commit_area, Snapshot, Rebuild, reading_version, reading_areas, building, fulfilled,
  rejected, SnapshotService, enqueue_rebuild, poll, is_over, start_rebuild, read_version,
  read_areas, swap, fail_rebuild, State, Step, Steps, here, more, Reach, commit_step, refresh_step,
  poll_step, start_step, version_step, areas_step, swap_step, fail_step,
}
use geofence_location.Areas.Snapshot.Rebuilds.{IsOrdered, swap-cases}
use geofence_location.Areas.Snapshot.Sound.{IsSound, IsSound-enqueue, poll-cases}
use geofence_location.Areas.Snapshot.Moves.{Steps-IsSound, IsSound-initial}

-- `rows` are those of `base` and perhaps newer ones.
abbrev pub Extends : List AreaGeometryRow → List AreaGeometryRow → Type 0
Extends rows base = (newer : List AreaGeometryRow) × (rows ≡ newer ++ base)

pub record IsShowing (base : List AreaGeometryRow) (shown : Option Snapshot) : Type 0 where
  pub snapshot : Snapshot
  pub there : shown ≡ some snapshot
  pub rows : List AreaGeometryRow
  pub built : build rows ≡ some snapshot.index
  pub covers : Extends rows base

-- What holds from a call on that has number `n`, at which `base` was committed.
record IsServed (base : List AreaGeometryRow) (n : ℕ) (tables : AreaTables) (s : SnapshotService)
    : Type 0 where
  pub committed : Extends tables.areas base
  pub called : n < s.next
  pub held :
      (m version : ℕ) (rows : List AreaGeometryRow)
      → n ≤ m
      → m < s.next
      → s.rebuild m ≡ building version rows
      → Extends rows base
  pub shown : s.rebuild n ≡ fulfilled → IsShowing base s.snapshot

module _ (base : List AreaGeometryRow) (n : ℕ) (tables : AreaTables) (s : SnapshotService)
    (h : IsServed base n tables s) where
  IsServed-commit : (row : AreaGeometryRow) → IsServed base n (commit_area row tables) s
  unfolding commit_area
  IsServed-commit row = record {
    committed = let (newer, e) = h.committed in (row ∷ newer, ap (λ l. row ∷ l) e);
    called = h.called;
    held = h.held;
    shown = h.shown;
  }

  IsServed-enqueue : IsServed base n tables (enqueue_rebuild s)
  unfolding enqueue_rebuild
  IsServed-enqueue = record {
    committed = h.committed;
    called = omega (arith, h.called);
    held = λ m v rows le lt e. h.held m v rows le (ground arith) (ground arith);
    shown = λ e. h.shown (ground (arith, h.called));
  }

  IsServed-poll : (version : ℕ) → IsServed base n tables (poll version s)
  IsServed-poll version = elim (poll-cases version s) [
    | inl kept ↦ subst (IsServed base n tables) (sym kept) h
    | inr asked ↦ subst (IsServed base n tables) (sym asked) IsServed-enqueue
  ]

  module _ (k : ℕ) (x : Rebuild) where
    IsServed-put :
        x ≢ fulfilled
        → ((version : ℕ) (rows : List AreaGeometryRow)
            → x ≡ building version rows
            → Extends rows base)
        → IsServed base n tables (record s { rebuild = put k x s.rebuild })
    IsServed-put open_still holds = record {
      committed = h.committed;
      called = h.called;
      held = λ m v rows le lt e. elim (Bool-cases (eqb m k)) [
        | inl same ↦ holds v rows (ground arith)
        | inr other ↦ h.held m v rows le lt (ground arith)
      ];
      shown = λ e. elim (Bool-cases (eqb n k)) [
        | inl same ↦ absurd (open_still (ground arith))
        | inr other ↦ h.shown (ground arith)
      ];
    }

  IsServed-read_areas : (k version : ℕ) → IsServed base n tables (read_areas k version tables s)
  unfolding read_areas
  IsServed-read_areas k version =
      IsServed-put k (building version tables.areas) (λ e. cc)
        (λ v rows e. subst (λ l. Extends l base) (ground arith) h.committed)

  module _ (ordered : IsOrdered s.next s.rebuild) (k version : ℕ) (rows : List AreaGeometryRow)
      (lt : k < s.next) (holds : s.rebuild k ≡ building version rows) where
    -- no rebuild from before the call swaps once the call is fulfilled
    not_before : s.rebuild n ≡ fulfilled → n ≤ k
    unfolding is_over
    not_before e = ground (arith, ordered n h.called (λ q. cc (e, q)) k)

    IsServed-shown :
        (index : AreaSpatialIndex)
        → build rows ≡ some index
        → IsServed base n tables (record s {
          snapshot = some (record { version = version; index = index });
          rebuild = put k fulfilled s.rebuild;
        })
    IsServed-shown index built = record {
      committed = h.committed;
      called = h.called;
      held = λ m v more le lm e. h.held m v more le lm (ground arith);
      shown = λ e. record {
        snapshot = record { version = version; index = index };
        there = refl;
        rows = rows;
        built = built;
        covers =
            h.held k version rows
              (elim (Bool-cases (eqb n k)) [
                | inl same ↦ ground arith
                | inr other ↦ not_before (ground arith)
              ])
              lt holds;
      };
    }

    IsServed-swap : IsServed base n tables (swap k version rows s)
    IsServed-swap = elim (swap-cases k version rows s) [
      | inl (fails, is) ↦
          subst (IsServed base n tables) (sym is)
            (IsServed-put k rejected (λ e. cc) (λ v more e. cc))
      | inr (index, built, is) ↦
          subst (IsServed base n tables) (sym is) (IsServed-shown index built)
    ]

module _ (base : List AreaGeometryRow) (n : ℕ) where
  IsServed-Step :
      {c c' : State}
      → IsSound c.tables c.service
      → Step c c'
      → IsServed base n c.tables c.service
      → IsServed base n c'.tables c'.service
  unfolding start_rebuild read_version fail_rebuild
  IsServed-Step {c} sound (commit_step row) h = IsServed-commit base n c.tables c.service h row
  IsServed-Step {c} sound refresh_step h = IsServed-enqueue base n c.tables c.service h
  IsServed-Step {c} sound (poll_step version) h = IsServed-poll base n c.tables c.service h version
  IsServed-Step {c} sound (start_step k lt waits may) h =
      IsServed-put base n c.tables c.service h k reading_version (λ e. cc) (λ v rows e. cc)
  IsServed-Step {c} sound (version_step k lt e) h =
      IsServed-put base n c.tables c.service h k (reading_areas c.tables.version) (λ e. cc)
        (λ v rows e. cc)
  IsServed-Step {c} sound (areas_step k version lt e) h =
      IsServed-read_areas base n c.tables c.service h k version
  IsServed-Step {c} sound (swap_step k version rows lt e) h =
      IsServed-swap base n c.tables c.service h sound.ordered k version rows lt e
  IsServed-Step {c} sound (fail_step k lt e going) h =
      IsServed-put base n c.tables c.service h k rejected (λ e. cc) (λ v rows e. cc)

  IsServed-Steps :
      {c c' : State}
      → IsSound c.tables c.service
      → Steps c c'
      → IsServed base n c.tables c.service
      → IsServed base n c'.tables c'.service
  IsServed-Steps sound here h = h
  IsServed-Steps sound (more steps step) h =
      IsServed-Step (Steps-IsSound steps sound) step (IsServed-Steps sound steps h)

IsServed-called :
    (tables : AreaTables) (s : SnapshotService)
    → IsServed tables.areas s.next tables (enqueue_rebuild s)
unfolding enqueue_rebuild
IsServed-called tables s = record {
  committed = ([], refl);
  called = omega arith;
  held = λ m v rows le lt e. absurd (ground arith);
  shown = λ e. absurd (ground arith);
}

-- Once the rebuild of a refresh is fulfilled, and from then on, the snapshot covers every area that
-- was committed before the call, whatever commits, polls, refreshes, failures and rebuilds come
-- between: the creator of an area never waits for a poll.
pub refresh-IsShowing :
    {tables : AreaTables} {c c' : State}
    → Reach tables c
    → Steps (record c { service = enqueue_rebuild c.service }) c'
    → c'.service.rebuild c.service.next ≡ fulfilled
    → IsShowing c.tables.areas c'.service.snapshot
refresh-IsShowing {tables} {c} before after done =
    (IsServed-Steps c.tables.areas c.service.next
        (IsSound-enqueue c.tables c.service (Steps-IsSound before (IsSound-initial tables))) after
        (IsServed-called c.tables c.service)).shown
      done
