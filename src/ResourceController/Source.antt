-- ===== src/ResourceController/Source.antt =====
-- `reconcile_source`: one `ObjectSync` is brought into line with its source.
pub mod Plan
pub mod Steady
pub mod Settled
pub mod Tracking
use mathlib.Core.Option.{get_or}
use k8s_object_syncer.Base.{
  ℕ, ◌-◌, ltb, nat_eq, ◌==◌, ◌<>◌, not, ◌||◌, Option, none, some, List, [], ◌∷◌, ◌++◌, find, retain,
  length, if◌then◌else◌, pure, ◌>>=◌, ◌>>◌,
}
use k8s_object_syncer.Base.Decimal.{decimal}
use k8s_object_syncer.Kube.Meta.{GroupVersionKind}
use k8s_object_syncer.Kube.Server.{Kube}
use k8s_object_syncer.Kube.Client.{Object, namespaces, now}
use k8s_object_syncer.Api.Types.{Condition, DestinationStatus, ObjectSync, strategy_eq}
use k8s_object_syncer.Api.Destination.{status_strategy}
use k8s_object_syncer.Api.Status.{
  new_condition, update_condition, update_destinations, status_destinations,
}
use k8s_object_syncer.Api.Status.Order.{sort}
use k8s_object_syncer.Errors.{ControllerError}
use k8s_object_syncer.Utils.Deletion.{delete_destinations}
use k8s_object_syncer.Modifications.{Act, on_env, the_event, modify, replace_status}
use k8s_object_syncer.ObjectSyncController.Cleanup.{in_sync, success, failure}
use k8s_object_syncer.ResourceController.Expected.{Target, expected_destinations}
use k8s_object_syncer.ResourceController.Upsert.{is_same_destination, Upserted, upsert_destinations}

-- The two lists that the first loop works on.
pub record Merge : Type 0 where
  pub stale : List DestinationStatus
  pub expected : List DestinationStatus

-- The revisions noted before are kept unless the strategy has changed.
unfoldable pub carry_versions : DestinationStatus → DestinationStatus → DestinationStatus
carry_versions known expected_dst =
    if status_strategy known == status_strategy expected_dst
    then record expected_dst {
      source_version = known.source_version;
      synced_version = known.synced_version;
    }
    else expected_dst

module _ (gvk : GroupVersionKind) where
  -- The status of a copy that has not been written yet.
  unfoldable pub fresh_status : Target → DestinationStatus
  fresh_status t = record {
    name = t.name;
    namespace = t.namespace;
    group = gvk.group;
    version = gvk.version;
    kind = gvk.kind;
    source_version = none;
    synced_version = none;
    strategy = t.strategy;
  }

  -- The body of the loop over the expected destinations.
  unfoldable pub merge_target : Target → Merge → Merge
  unfolding fresh_status carry_versions
  merge_target t m =
      let expected_dst = fresh_status t in
      elim (find (λ d. is_same_destination d expected_dst) m.stale) [
        | none ↦ record m { expected = m.expected ++ expected_dst ∷ [] }
        | some known ↦ record {
          stale = retain (λ d. not (is_same_destination d expected_dst)) m.stale;
          expected = m.expected ++ carry_versions known expected_dst ∷ [];
        }
      ]

  unfoldable pub merge_targets : List Target → Merge → Merge
  unfolding merge_target
  merge_targets [] m = m
  merge_targets (t ∷ ts) m = merge_targets ts (merge_target t m)

-- The condition after the copies were brought up to date, if something was done.
unfoldable pub sync_condition : Upserted → ℕ → Option Condition
unfolding decimal new_condition
sync_condition u removed_count =
    let errors = u.expected - u.observed in
    if u.changed || ltb 0 removed_count
    then some (
        new_condition in_sync (some (errors == 0)) (if errors == 0 then success else failure)
          (decimal u.observed <> " out of " <> decimal u.expected <> " destinations are in sync"))
    else none

module _ (K : Kube) where
  -- Step 4: report.
  unfoldable pub report : Option Condition → Act K ControllerError (Unit {0})
  report none = pure tt
  report (some c) = do time ← on_env K (now K); modify K (update_condition time c); replace_status K

module _ (K : Kube) (gvk : GroupVersionKind) where
  -- The destinations to be tracked before anything is written, and the stale ones.
  unfoldable pub plan_destinations : ObjectSync → List Target → Merge
  unfolding merge_targets
  plan_destinations obj targets =
      merge_targets gvk targets
        (record { stale = get_or (status_destinations obj) []; expected = [] })

  -- Step 3: create and update the copies, and say what to report.
  unfoldable pub upsert_tracked :
      Object K → List DestinationStatus → ℕ → Act K ControllerError (Option Condition)
  upsert_tracked source remnants removed_count = do
    m ← the_event K
    elim (status_destinations m.modified) [
      | none ↦ pure none
      | some ds ↦ do
        u ← on_env K (upsert_destinations K gvk source ds remnants)
        modify K (update_destinations u.destinations)
        pure (sync_condition u removed_count)
    ]

  -- Steps 1 and 2: remove the stale copies, and store the destinations to be tracked. The result
  -- is the remnants, and how many copies were removed.
  unfoldable pub track_destinations : Act K ControllerError (List DestinationStatus × ℕ)
  track_destinations = do
    m ← the_event K
    cache ← on_env K (namespaces K)
    let plan = plan_destinations m.modified (expected_destinations K m.modified cache)
    stale_remnants ← on_env K (delete_destinations K plan.stale)
    modify K (update_destinations (sort (plan.expected ++ stale_remnants)))
    replace_status K
    pure (stale_remnants, length plan.stale - length stale_remnants)

  unfoldable pub reconcile_source : Object K → Act K ControllerError (Unit {0})
  reconcile_source source = do
    (stale_remnants, removed_count) ← track_destinations
    condition ← upsert_tracked source stale_remnants removed_count
    report K condition
