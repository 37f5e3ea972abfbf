-- ===== src/ResourceController/Upsert.antt =====
-- `upsert_destinations`: every tracked copy is created, updated or left alone.
pub mod Outcome
pub mod Calls
pub mod Idle
pub mod Brought
pub mod Settles
pub mod Converges
pub mod Progresses
pub mod Writes
use k8s_object_syncer.Base.{
  ℕ, zero, suc, ◌+◌, String, string_eq, option_eq, ◌==◌, Bool, true, false, not, ◌&&◌, ◌||◌, Option,
  none, some, List, [], ◌∷◌, any, retain, length, if◌then◌else◌, Result, ok, err, pure, attempt,
  ◌>>=◌,
}
use k8s_object_syncer.Kube.Meta.{GroupVersionKind, KubeError}
use k8s_object_syncer.Kube.Server.{Kube, Api, Patch, PatchParams}
use k8s_object_syncer.Kube.Client.{Object, Io, get, patch, create, replace}
use k8s_object_syncer.Api.Types.{
  SyncStrategy, DestinationStatus, ObjectRevision, revision_eq, strategy_eq,
}
use k8s_object_syncer.Api.Destination.{status_strategy, revision_of}
use k8s_object_syncer.Errors.{ControllerError, is_not_found, is_conflict}
use k8s_object_syncer.Utils.Names.{manager, finalizer_name}
use k8s_object_syncer.Utils.Finalizers.{remove_finalizer}
use k8s_object_syncer.Modifications.{post_params}
use k8s_object_syncer.ResourceController.Template.{
  source_template, destination_template, at_revision, no_revision,
}

-- `is_same_destination`; the version is left out.
unfoldable pub is_same_destination : DestinationStatus → DestinationStatus → Bool
is_same_destination me other =
    me.name == other.name
    && me.namespace == other.namespace
    && me.group == other.group
    && me.kind == other.kind

-- `stale_remnants.iter().any(|v| Self::is_same_destination(v, d))`
abbrev pub is_remnant : List DestinationStatus → DestinationStatus → Bool
is_remnant remnants d = any (λ v. is_same_destination v d) remnants

-- The destinations to be brought up to date.
unfoldable pub expected_success : List DestinationStatus → List DestinationStatus → ℕ
expected_success remnants ds = length (retain (λ d. not (is_remnant remnants d)) ds)

pub record Upserted : Type 0 where
  pub destinations : List DestinationStatus
  pub changed : Bool
  pub expected : ℕ
  pub observed : ℕ

abbrev pub retry_attempts : ℕ
retry_attempts = 3

-- The two counters of the loop.
pub record Progress : Type 0 where
  pub changed : Bool
  pub observed_success : ℕ

abbrev pub force_params : PatchParams
force_params = record {
  dry_run = false;
  force = true;
  field_manager = some manager;
  field_validation = none;
}

-- The copy has been written at these revisions.
abbrev pub written : DestinationStatus → ObjectRevision → ObjectRevision → DestinationStatus
written d synced source = record d { synced_version = some synced; source_version = some source }

abbrev pub written_progress : Progress → Progress
written_progress p = record { changed = true; observed_success = p.observed_success + 1 }

abbrev pub seen_progress : Progress → Progress
seen_progress p = record p { observed_success = p.observed_success + 1 }

-- How an attempt ends: `continue`, or `break` with the destination and the counters.
abbrev pub Turn : Type 0
Turn = Option (DestinationStatus × Progress)

module _ (K : Kube) (gvk : GroupVersionKind) where
  -- `namespaced_api`
  abbrev pub namespaced_api : String → Api
  namespaced_api namespace = record {
    resource = K.from_gvk gvk.group gvk.version gvk.kind;
    namespace = some namespace;
  }

  module _ (src : ObjectRevision) where
    -- The answer to a write of an existing copy.
    unfoldable pub after_update : DestinationStatus → Progress → Result KubeError (Object K) → Turn
    after_update d p (ok updated) =
        some (written d (revision_of updated.metadata) src, written_progress p)
    after_update d p (err e) = if is_not_found e || is_conflict e then none else some (d, p)

    -- The answer to the creation of a copy.
    unfoldable pub after_create : DestinationStatus → Progress → Result KubeError (Object K) → Turn
    after_create d p (ok created) =
        some (written d (revision_of created.metadata) src, written_progress p)
    after_create d p (err e) = if is_conflict e then none else some (d, p)

    -- The copy differs in its own revision, or was written from another one of the source.
    unfoldable pub is_outdated : DestinationStatus → ObjectRevision → Bool
    is_outdated d dst = not (some dst == d.synced_version) || not (some src == d.source_version)

    -- A copy that exists and is not about to be tried again.
    unfoldable pub update_existing :
        Object K → DestinationStatus → Progress → Object K → Io K ControllerError Turn
    unfolding after_update is_outdated
    update_existing template d p current =
        let target = at_revision K template (revision_of current.metadata) in
        if is_outdated d (revision_of current.metadata)
        then (do
          r ← elim (status_strategy d) [
            | SyncStrategy.replace ↦
                attempt (replace K (namespaced_api d.namespace) d.name post_params target)
            | SyncStrategy.apply ↦
                attempt
                  (patch K (namespaced_api d.namespace) d.name force_params (Patch.apply target))
          ]
          pure (after_update d p r))
        else pure (some (d, seen_progress p))

    -- A copy that is being deleted loses the finalizer; whether the loop goes round again.
    unfoldable pub release_deleted : DestinationStatus → Object K → Io K ControllerError Bool
    release_deleted d current = elim current.metadata.deletion_timestamp [
      | none ↦ pure false
      | some _ ↦ do
        (r, _) ← remove_finalizer K (namespaced_api d.namespace) current finalizer_name
        pure (elim r [ ok again ↦ again | err e ↦ false ])
    ]

    -- The body of the `while` loop.
    unfoldable pub attempt_once :
        Object K → DestinationStatus → Progress → Io K ControllerError Turn
    unfolding after_create
    attempt_once template d p = do
      found ← attempt (get K (namespaced_api d.namespace) d.name)
      elim found [
        | ok current ↦ do
          again ← release_deleted d current
          if again then pure none else update_existing template d p current
        | err e ↦
            if is_not_found e
            then (do
              r ← attempt (
                  create K (namespaced_api d.namespace) post_params
                    (at_revision K template no_revision))
              pure (after_create d p r))
            else pure (some (d, p))
      ]

    -- `while retry_attempts > 0`, with the attempts that are left.
    pub attempt_loop :
        ℕ
        → Object K
        → DestinationStatus
        → Progress
        → Io K ControllerError (DestinationStatus × Progress)
    attempt_loop zero template d p = pure (d, p)
    attempt_loop (suc n) template d p = do
      turn ← attempt_once template d p
      elim turn [ some out ↦ pure out | none ↦ attempt_loop n template d p ]

    -- `for d in destinations`
    pub upsert_loop :
        Object K
        → List DestinationStatus
        → List DestinationStatus
        → Progress
        → Io K ControllerError (List DestinationStatus × Progress)
    upsert_loop template remnants [] p = pure ([], p)
    upsert_loop template remnants (d ∷ ds) p =
        if is_remnant remnants d
        then (do (ds', p') ← upsert_loop template remnants ds p; pure (d ∷ ds', p'))
        else (do
          (d', p') ← attempt_loop retry_attempts (destination_template K template d) d p
          (ds', p'') ← upsert_loop template remnants ds p'
          pure (d' ∷ ds', p''))

  unfoldable pub upsert_destinations :
      Object K → List DestinationStatus → List DestinationStatus → Io K ControllerError Upserted
  unfolding attempt_loop upsert_loop expected_success
  upsert_destinations source ds remnants = do
    (ds', p) ←
        upsert_loop (revision_of source.metadata) (source_template K source) remnants ds
          (record { changed = false; observed_success = 0 })
    pure (record {
      destinations = ds';
      changed = p.changed;
      expected = expected_success remnants ds;
      observed = p.observed_success;
    })
