-- ===== src/ResourceController/Upsert/Brought.antt =====
-- One destination is brought up to date at a server that stores what it is sent.
use k8s_object_syncer.Base.{
  ◌+◌, ◌≡◌, ◌⊎◌, refl, ◌∙◌, false, true, none, some, Option, Result, ok, err, arith, inl, inr,
  Bool-cases, Option-cases, Result-cases,
}
use k8s_object_syncer.Kube.Meta.{GroupVersionKind, KubeError, ApiResource}
use k8s_object_syncer.Kube.Server.{Kube, Patch}
use k8s_object_syncer.Kube.Client.{Object, Env, get, create, replace, patch}
use k8s_object_syncer.Kube.Storing.{Reads, Stores, Stored, Others}
use k8s_object_syncer.Api.Types.{SyncStrategy, DestinationStatus, ObjectRevision}
use k8s_object_syncer.Api.Destination.{revision_of, status_strategy}
use k8s_object_syncer.Errors.{ControllerError}
use k8s_object_syncer.Modifications.{post_params}
use k8s_object_syncer.Utils.Names.{NamespacedName, key_of}
use k8s_object_syncer.ResourceController.Template.{at_revision, no_revision}
use k8s_object_syncer.ResourceController.Upsert.{
  Progress, namespaced_api, written, written_progress, seen_progress, after_create, after_update,
  is_outdated, update_existing, release_deleted, attempt_once, attempt_loop, retry_attempts,
  force_params,
}

strategy-cases : (m : SyncStrategy) → (m ≡ SyncStrategy.replace) ⊎ (m ≡ SyncStrategy.apply)
strategy-cases SyncStrategy.replace = inl refl
strategy-cases SyncStrategy.apply = inr refl

-- Both are the same destination, at whatever revisions.
abbrev pub IsSame : DestinationStatus → DestinationStatus → Type 0
IsSame a b =
    (a.name ≡ b.name) × (a.namespace ≡ b.namespace) × (a.group ≡ b.group) × (a.kind ≡ b.kind)

module _ (K : Kube) (gvk : GroupVersionKind) (view : K.World → NamespacedName → Option (Object K))
    (src : ObjectRevision) where
  abbrev resource : ApiResource
  resource = K.from_gvk gvk.group gvk.version gvk.kind

  -- The copy may be there, but is not being deleted.
  abbrev pub IsFree : Option (Object K) → Type 0
  IsFree none = Unit
  IsFree (some o) = o.metadata.deletion_timestamp ≡ none

  -- The copy is there at the revision that was noted, and is not being deleted.
  abbrev pub IsNoted : DestinationStatus → Option (Object K) → Type 0
  IsNoted d none = ⊥
  IsNoted d (some o) =
      (o.metadata.deletion_timestamp ≡ none) × (d.synced_version ≡ some (revision_of o.metadata))

  abbrev pub Synced : K.World → DestinationStatus → Type 0
  Synced w d = IsNoted d (view w (key_of d)) × (d.source_version ≡ some src)

  -- What bringing one destination up to date comes to: it counts as a success, its copy is there as
  -- noted, and the others are as they were.
  abbrev pub Brought :
      K.World
      → DestinationStatus
      → Progress
      → Result ControllerError (DestinationStatus × Progress) × Env K
      → Type 0
  Brought w d p (err e, t) = ⊥
  Brought w d p (ok (d', p'), t) =
      (p'.observed_success ≡ p.observed_success + 1)
      × IsSame d' d
      × Synced t.world d'
      × Others K resource view w (key_of d) t.world

  abbrev pub run :
      Object K
      → DestinationStatus
      → Progress
      → Env K
      → Result ControllerError (DestinationStatus × Progress) × Env K
  run template d p s = attempt_loop K gvk src retry_attempts template d p s

  abbrev pub reading : DestinationStatus → Env K → Env K
  reading d s = (get K (namespaced_api K gvk d.namespace) d.name s).1

  abbrev creating : Object K → DestinationStatus → Env K → Result KubeError (Object K) × Env K
  creating template d s =
      create K (namespaced_api K gvk d.namespace) post_params (at_revision K template no_revision)
        (reading d s)

  -- The write of a copy that is there, by the strategy of the destination.
  abbrev writing :
      Object K → DestinationStatus → Object K → Env K → Result KubeError (Object K) × Env K
  writing template d current s =
      let target = at_revision K template (revision_of current.metadata) in
      elim (status_strategy d) [
        | SyncStrategy.replace ↦
            replace K (namespaced_api K gvk d.namespace) d.name post_params target (reading d s)
        | SyncStrategy.apply ↦
            patch K (namespaced_api K gvk d.namespace) d.name force_params (Patch.apply target)
              (reading d s)
      ]

  -- The object that is sent is the copy of the destination.
  pub record IsFor (template : Object K) (d : DestinationStatus) : Type 0 where
    pub name : template.metadata.name ≡ some d.name
    pub stays : template.metadata.deletion_timestamp ≡ none

  module _ (reads : Reads K resource view) where
    pub run_kept :
        (template : Object K) (d : DestinationStatus) (p : Progress) (s : Env K)
        (current : Object K)
        → view s.world (key_of d) ≡ some current
        → current.metadata.deletion_timestamp ≡ none
        → is_outdated K gvk src d (revision_of current.metadata) ≡ false
        → run template d p s ≡ (ok (d, seen_progress p), reading d s)
    unfolding attempt_loop attempt_once release_deleted update_existing
    run_kept template d p s current here free fresh =
        ground (arith, reads.found (key_of d) s.world current here)

  module _ (stores : Stores K resource view) where
    run_created :
        (template : Object K) (d : DestinationStatus) (p : Progress) (s : Env K) (o : Object K)
        → view s.world (key_of d) ≡ none
        → (creating template d s).0 ≡ ok o
        → run template d p s ≡ (
          ok (written d (revision_of o.metadata) src, written_progress p),
          (creating template d s).1,
        )
    unfolding attempt_loop attempt_once after_create
    run_created template d p s o absent done =
        ground (arith, stores.reads.missing (key_of d) s.world absent)

    run-written :
        (template : Object K) (d : DestinationStatus) (p : Progress) (s : Env K)
        (current o : Object K)
        → view s.world (key_of d) ≡ some current
        → current.metadata.deletion_timestamp ≡ none
        → is_outdated K gvk src d (revision_of current.metadata) ≡ true
        → (writing template d current s).0 ≡ ok o
        → run template d p s ≡ (
          ok (written d (revision_of o.metadata) src, written_progress p),
          (writing template d current s).1,
        )
    unfolding attempt_loop attempt_once after_update release_deleted update_existing
    run-written template d p s current o here free outdated done =
        elim (strategy-cases (status_strategy d)) [
          | inl replaces ↦ ground (arith, stores.reads.found (key_of d) s.world current here)
          | inr applies ↦ ground (arith, stores.reads.found (key_of d) s.world current here)
        ]

    creating-Stored :
        (template : Object K) (d : DestinationStatus) (s : Env K)
        → IsFor template d
        → view s.world (key_of d) ≡ none
        → Stored K resource view
            (reading d s).world
            (key_of d)
            (creating template d s).0
            (creating template d s).1.world
    unfolding at_revision
    creating-Stored template d s is_for absent =
        stores.created (key_of d) post_params (at_revision K template no_revision)
          (reading d s).world refl is_for.name is_for.stays
          (stores.reads.read_only (key_of d) s.world (key_of d) ∙ absent)

    writing-Stored :
        (template : Object K) (d : DestinationStatus) (current : Object K) (s : Env K)
        → IsFor template d
        → view s.world (key_of d) ≡ some current
        → Stored K resource view
            (reading d s).world
            (key_of d)
            (writing template d current s).0
            (writing template d current s).1.world
    unfolding at_revision revision_of
    writing-Stored template d current s is_for here =
        let target = at_revision K template (revision_of current.metadata) in
        let here' = stores.reads.read_only (key_of d) s.world (key_of d) ∙ here in
        elim (strategy-cases (status_strategy d)) [
          | inl replaces ↦
              rw (replaces, writing)
                (stores.replaced (key_of d) post_params target current (reading d s).world refl
                  is_for.name is_for.stays here' refl)
          | inr applies ↦
              rw (applies, writing)
                (stores.applied (key_of d) force_params target current (reading d s).world refl
                  is_for.name is_for.stays here' refl)
        ]

    Stored-Brought :
        (d : DestinationStatus) (p : Progress) (s t : Env K) (o : Object K)
        → Stored K resource view (reading d s).world (key_of d) (ok o) t.world
        → Brought s.world d p (ok (written d (revision_of o.metadata) src, written_progress p), t)
    Stored-Brought d p s t o stored = (
      refl,
      (refl, refl, refl, refl),
      (rw stored.accepted.0 (stored.accepted.1, refl), refl),
      λ j other. stored.others j other ∙ stores.reads.read_only (key_of d) s.world j,
    )

    kept-Synced :
        (d : DestinationStatus) (current : Object K) (s : Env K)
        → view s.world (key_of d) ≡ some current
        → current.metadata.deletion_timestamp ≡ none
        → is_outdated K gvk src d (revision_of current.metadata) ≡ false
        → Synced (reading d s).world d
    unfolding is_outdated
    kept-Synced d current s here stays fresh =
        rw (stores.reads.read_only (key_of d) s.world (key_of d), here)
          ((stays, ground arith), ground arith)

    -- If the copy is not being deleted, then the attempts create it, write it by the strategy of the
    -- destination, or find it up to date.
    pub run-Brought :
        (template : Object K) (d : DestinationStatus) (p : Progress) (s : Env K)
        → IsFor template d
        → IsFree (view s.world (key_of d))
        → Brought s.world d p (run template d p s)
    run-Brought template d p s is_for free = elim (Option-cases (view s.world (key_of d))) [
      | inl absent ↦
          let stored = creating-Stored template d s is_for absent in
          elim (Result-cases (creating template d s).0) [
            | inr (e, failed) ↦ absurd (rw failed at stored.accepted)
            | inl (o, done) ↦
                rw (run_created template d p s o absent done)
                  (Stored-Brought d p s (creating template d s).1 o (rw done at stored))
          ]
      | inr (current, here) ↦
          let stays : current.metadata.deletion_timestamp ≡ none = ground arith in
          elim (Bool-cases (is_outdated K gvk src d (revision_of current.metadata))) [
            | inr fresh ↦ rw (run_kept stores.reads template d p s current here stays fresh) (
              refl,
              (refl, refl, refl, refl),
              kept-Synced d current s here stays fresh,
              λ j other. stores.reads.read_only (key_of d) s.world j,
            )
            | inl outdated ↦
                let stored = writing-Stored template d current s is_for here in
                elim (Result-cases (writing template d current s).0) [
                  | inr (e, failed) ↦ absurd (rw failed at stored.accepted)
                  | inl (o, done) ↦
                      rw (run-written template d p s current o here stays outdated done) (
                        Stored-Brought d p s (writing template d current s).1 o (rw done at stored))
                ]
          ]
    ]
