-- ===== src/Areas/Snapshot/Moves.antt =====
-- src/areas/area-snapshot.service.ts: the steps of a rebuild and the invariant.
use mathlib.Core.Path.{subst₂}
use mathlib.Core.Option.{some_inj}
use geofence_location.Prelude.{
  ℕ, ◌<◌, ◌≡◌, ◌≢◌, refl, sym, subst, true, false, some, List, [], arith, eqb, put, Bool-cases, inl,
  inr,
}
use geofence_location.Areas.{AreaGeometryRow}
use geofence_location.Areas.Index.{AreaSpatialIndex, build}
use geofence_location.Areas.Snapshot.{
  AreaTables, queued, reading_version, reading_areas, building, fulfilled, rejected,
  SnapshotService, initial, is_over, may_start, start_rebuild, read_version, read_areas, swap,
  fail_rebuild, State, Step, Steps, here, more, commit_step, refresh_step, poll_step, start_step,
  version_step, areas_step, swap_step, fail_step,
}
use geofence_location.Areas.Snapshot.Rebuilds.{
  going-alone, IsOrdered-put, AllOver-of_may_start, swap-cases,
}
use geofence_location.Areas.Snapshot.Sound.{
  IsRead, IsShown, IsBehind, IsSound, IsSound-put, IsSound-commit, IsSound-enqueue, IsSound-poll,
}

module _ (tables : AreaTables) (s : SnapshotService) (h : IsSound tables s) (n : ℕ)
    (lt : n < s.next) where
  IsSound-start : s.rebuild n ≡ queued → may_start s n ≡ true → IsSound tables (start_rebuild n s)
  unfolding start_rebuild is_over
  IsSound-start waits may =
      IsSound-put tables s h n reading_version lt (ground arith)
        (AllOver-of_may_start s n h.ordered lt may) (λ v e. cc) (λ v rows e. cc)

  IsSound-read_version : s.rebuild n ≡ reading_version → IsSound tables (read_version n tables s)
  unfolding read_version is_over
  IsSound-read_version asks =
      IsSound-put tables s h n (reading_areas tables.version) lt (ground arith)
        (h.ordered n lt (λ e. cc (asks, e)))
        (λ v e.
          (ground arith, λ snapshot there. ground (arith, (h.shown snapshot there).read.label)))
        (λ v rows e. cc)

  IsSound-read_areas :
      (version : ℕ)
      → s.rebuild n ≡ reading_areas version
      → IsSound tables (read_areas n version tables s)
  unfolding read_areas is_over
  IsSound-read_areas version asks =
      IsSound-put tables s h n (building version tables.areas) lt (ground arith)
        (h.ordered n lt (λ e. cc (asks, e))) (λ v e. cc)
        (λ v rows e.
          let same : version ≡ v = ground arith in
          let all : tables.areas ≡ rows = ground arith in
          subst₂ (λ x l. IsRead tables x l × IsBehind s.snapshot x) same all
            (all_rows, (h.asked n version lt asks).1))
    where
      all_rows : IsRead tables version tables.areas
      all_rows = record {
        newer = [];
        split = refl;
        label = omega (arith, (h.asked n version lt asks).0);
      }

  IsSound-fail :
      s.rebuild n ≢ queued → is_over (s.rebuild n) ≡ false → IsSound tables (fail_rebuild n s)
  unfolding fail_rebuild
  IsSound-fail started going =
      IsSound-put tables s h n rejected lt going (h.ordered n lt started) (λ v e. cc)
        (λ v rows e. cc)

  module _ (version : ℕ) (rows : List AreaGeometryRow)
      (holds : s.rebuild n ≡ building version rows) where
    -- nothing is going once the rebuild has ended
    rest-over :
        (m : ℕ)
        → m < s.next
        → put n fulfilled s.rebuild m ≢ queued
        → is_over (put n fulfilled s.rebuild m) ≡ true
    unfolding is_over
    rest-over m lm started = elim (Bool-cases (eqb m n)) [
      | inl same ↦ ground arith
      | inr other ↦ elim (Bool-cases (is_over (s.rebuild m))) [
        | inl over ↦ ground arith
        | inr going ↦
            let same =
              going-alone s.next s.rebuild h.ordered n m lt lm (λ e. cc (holds, e))
                (λ e. started (ground arith)) (ground arith) going in
            absurd (ground arith)
      ]
    ]

    IsSound-shown :
        (index : AreaSpatialIndex)
        → build rows ≡ some index
        → IsSound tables (record s {
          snapshot = some (record { version = version; index = index });
          rebuild = put n fulfilled s.rebuild;
        })
    unfolding is_over
    IsSound-shown index built = record {
      ordered =
          IsOrdered-put s.next s.rebuild h.ordered n fulfilled lt (ground arith)
            (h.ordered n lt (λ e. cc (holds, e)));
      asked = λ m v lm e. absurd (ground (arith, e, rest-over m lm (λ q. cc (e, q))));
      held = λ m v more lm e. absurd (ground (arith, e, rest-over m lm (λ q. cc (e, q))));
      shown = λ snapshot e.
          subst (IsShown tables) (some_inj.0 e)
            (record { rows = rows; built = built; read = (h.held n version rows lt holds).0 });
    }

    IsSound-swap : IsSound tables (swap n version rows s)
    unfolding is_over
    IsSound-swap = elim (swap-cases n version rows s) [
      | inl (fails, is) ↦ subst (IsSound tables) (sym is) (
          IsSound-put tables s h n rejected lt (ground arith) (h.ordered n lt (λ e. cc (holds, e)))
            (λ v e. cc) (λ v more e. cc))
      | inr (index, built, is) ↦ subst (IsSound tables) (sym is) (IsSound-shown index built)
    ]

pub IsSound-initial : (tables : AreaTables) → IsSound tables initial
IsSound-initial tables = record {
  ordered = λ n lt. absurd (omega arith);
  asked = λ n v lt. absurd (omega arith);
  held = λ n v rows lt. absurd (omega arith);
  shown = λ snapshot e. cc;
}

pub Step-IsSound :
    {c c' : State} → Step c c' → IsSound c.tables c.service → IsSound c'.tables c'.service
Step-IsSound {c} (commit_step row) h = IsSound-commit row c.tables c.service h
Step-IsSound {c} refresh_step h = IsSound-enqueue c.tables c.service h
Step-IsSound {c} (poll_step version) h = IsSound-poll c.tables c.service h version
Step-IsSound {c} (start_step n lt waits may) h = IsSound-start c.tables c.service h n lt waits may
Step-IsSound {c} (version_step n lt e) h = IsSound-read_version c.tables c.service h n lt e
Step-IsSound {c} (areas_step n version lt e) h =
    IsSound-read_areas c.tables c.service h n lt version e
Step-IsSound {c} (swap_step n version rows lt e) h =
    IsSound-swap c.tables c.service h n lt version rows e
Step-IsSound {c} (fail_step n lt e going) h = IsSound-fail c.tables c.service h n lt e going

pub Steps-IsSound :
    {c c' : State} → Steps c c' → IsSound c.tables c.service → IsSound c'.tables c'.service
Steps-IsSound here h = h
Steps-IsSound (more steps step) h = Step-IsSound step (Steps-IsSound steps h)
