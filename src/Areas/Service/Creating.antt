-- ===== src/Areas/Service/Creating.antt =====
-- `create` of src/areas/areas.service.ts, and the snapshot of the process that creates.
use Prim.Native.String
use mathlib.Core.List.{append_assoc}
use geofence_location.Prelude.{
  ◌≡◌, refl, sym, ap, ◌∙◌, subst, ◌⊎◌, inl, inr, Bool-cases, Option-cases, true, some, List, [],
  ◌∷◌, ◌++◌,
}
use geofence_location.Areas.{AreaGeometryRow}
use geofence_location.Areas.Snapshot.{
  AreaTables, Rebuild, queued, reading_version, reading_areas, building, fulfilled, rejected, State,
  Step, Steps, here, more, Reach, commit_area, enqueue_rebuild, commit_step, refresh_step,
  poll_step, start_step, version_step, areas_step, swap_step, fail_step,
}
use geofence_location.Areas.Snapshot.Served.{Extends, IsShowing, refresh-IsShowing}
use geofence_location.Areas.Service.{
  CreateAreaDto, AreaEntity, Creation, CreateFailure, bad_request, create_query_failed, reason_or,
  created, refused, AreaStore, entity_of, create_transaction, create_area, answer_after_refresh,
  geometry_of, tables_of,
}

-- `create` refuses and leaves the store as it was, or the boundary is valid, no statement fails, and
-- the store changes by the one commit that the snapshots follow.
pub create_area-cases :
    (e : Creation) (dto : CreateAreaDto) (store : AreaStore)
    → ((failure : CreateFailure) × (create_area e dto store ≡ (refused failure, store)))
      ⊎ (((e.validity dto.boundary).valid ≡ true)
          × (((create_area e dto store).0 ≡ created (entity_of e dto))
              × (tables_of (create_area e dto store).1
                  ≡ commit_area (geometry_of (entity_of e dto)) (tables_of store))))
unfolding create_area create_transaction entity_of tables_of commit_area
create_area-cases e dto store = elim (Option-cases e.query_fault) [
  | inr (fault, there) ↦ inl (create_query_failed fault, rw there refl)
  | inl asked ↦ elim (Bool-cases (e.validity dto.boundary).valid) [
    | inr invalid ↦ inl (
      bad_request (String.◌++◌ "invalid polygon: " (reason_or (e.validity dto.boundary).reason)),
      rw (asked, invalid) refl,
    )
    | inl valid ↦ elim (Option-cases e.save_fault) [
      | inr (fault, there) ↦ inl (create_query_failed fault, rw (asked, valid, there) refl)
      | inl saved ↦ elim (Option-cases e.version_fault) [
        | inr (fault, there) ↦ inl (create_query_failed fault, rw (asked, valid, saved, there) refl)
        | inl bumped ↦ elim (Option-cases e.commit_fault) [
          | inr (fault, there) ↦
              inl (create_query_failed fault, rw (asked, valid, saved, bumped, there) refl)
          | inl done ↦ inr (valid, rw (asked, valid, saved, bumped, done) (refl, refl))
        ]
      ]
    ]
  ]
]

Extends-trans :
    {newest newer base : List AreaGeometryRow}
    → Extends newest newer
    → Extends newer base
    → Extends newest base
Extends-trans {base = base} (xs, e) (ys, f) =
    (xs ++ ys, e ∙ ap (λ l. xs ++ l) f ∙ sym (append_assoc xs ys base))

Step-Extends : {c c' : State} → Step c c' → Extends c'.tables.areas c.tables.areas
unfolding commit_area
Step-Extends (commit_step row) = (row ∷ [], refl)
Step-Extends refresh_step = ([], refl)
Step-Extends (poll_step version) = ([], refl)
Step-Extends (start_step n lt e may) = ([], refl)
Step-Extends (version_step n lt e) = ([], refl)
Step-Extends (areas_step n version lt e) = ([], refl)
Step-Extends (swap_step n version rows lt e) = ([], refl)
Step-Extends (fail_step n lt e still) = ([], refl)

Steps-Extends : {c c' : State} → Steps c c' → Extends c'.tables.areas c.tables.areas
Steps-Extends here = ([], refl)
Steps-Extends (more steps step) = Extends-trans (Step-Extends step) (Steps-Extends steps)

Steps-trans : {a b c : State} → Steps a b → Steps b c → Steps a c
Steps-trans before here = before
Steps-trans before (more steps step) = more (Steps-trans before steps) step

answer-fulfilled :
    (area : AreaEntity) (rebuild : Rebuild)
    → answer_after_refresh area rebuild ≡ some (created area)
    → rebuild ≡ fulfilled
unfolding answer_after_refresh
answer-fulfilled area queued e = cc
answer-fulfilled area reading_version e = cc
answer-fulfilled area (reading_areas version) e = cc
answer-fulfilled area (building version rows) e = cc
answer-fulfilled area fulfilled e = refl
answer-fulfilled area rejected e = cc

-- If `create` returns an area, its store changed by the commit of this area's row.
create_area-commits :
    (e : Creation) (dto : CreateAreaDto) (store store' : AreaStore) (area : AreaEntity)
    → create_area e dto store ≡ (created area, store')
    → ((e.validity dto.boundary).valid ≡ true)
      × (tables_of store' ≡ commit_area (geometry_of area) (tables_of store))
create_area-commits e dto store store' area h = elim (create_area-cases e dto store) [
  | inl (failure, e1) ↦ cc (e1, h)
  | inr (valid, (answer, tables)) ↦
      let same : entity_of e dto ≡ area = created_inj (sym answer ∙ ap (λ r. r.0) h) in
      (
        valid,
        ap (λ r. tables_of r.1) (sym h)
            ∙ tables
            ∙ ap (λ a. commit_area (geometry_of a) (tables_of store)) same,
      )
]
  where
    created_inj : {a b : AreaEntity} → created a ≡ created b → a ≡ b
    created_inj h = cc

-- Let `create` commit in a state whose tables are those of its store, then call its refresh, whatever
-- commits, polls and rebuilds come in between and after that. PostGIS has found the boundary valid,
-- and from the time on at which the request is answered with the area, the snapshot of the process
-- shows the area and all that was stored before it: its creator never reads an older snapshot.
pub created-IsShowing :
    (e : Creation) (dto : CreateAreaDto) (store store' : AreaStore) (area : AreaEntity)
    {tables : AreaTables} {c called later : State}
    → create_area e dto store ≡ (created area, store')
    → Reach tables c
    → tables_of store ≡ c.tables
    → Steps (record c { tables = tables_of store' }) called
    → Steps (record called { service = enqueue_rebuild called.service }) later
    → answer_after_refresh area (later.service.rebuild called.service.next) ≡ some (created area)
    → ((e.validity dto.boundary).valid ≡ true)
      × IsShowing (geometry_of area ∷ (tables_of store).areas) later.service.snapshot
created-IsShowing e dto store store' area {c = c} {called} {later} ran reach same between after
      answered =
    let (valid, tables) = create_area-commits e dto store store' area ran in
    let stored = tables ∙ ap (commit_area (geometry_of area)) same in
    let committed = subst (λ t. Steps (record c { tables = t }) called) stored between in
    let shown =
      refresh-IsShowing (Steps-trans (more reach (commit_step (geometry_of area))) committed) after
        (answer-fulfilled area (later.service.rebuild called.service.next) answered) in
    let grown = subst (λ t. Extends called.tables.areas t.areas) tables (Steps-Extends between) in
    (
      valid,
      record {
        snapshot = shown.snapshot;
        there = shown.there;
        rows = shown.rows;
        built = shown.built;
        covers = Extends-trans shown.covers (unfold commit_area in grown);
      },
    )
