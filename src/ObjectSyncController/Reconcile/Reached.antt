-- ===== src/ObjectSyncController/Reconcile/Reached.antt =====
-- The registry along any sequence of reconciliations.
use k8s_object_syncer.Base.{
  String, Bool, if◌then◌else◌, true, false, Option, List, arith, inl, inr, Result-cases,
  Option-cases,
}
use k8s_object_syncer.Base.Dict
use k8s_object_syncer.Kube.Meta.{GroupVersionKind}
use k8s_object_syncer.Kube.Server.{Kube}
use k8s_object_syncer.Utils.Names.{name_eq}
use k8s_object_syncer.Modifications.{Session, id, is_deleted}
use k8s_object_syncer.ObjectSyncController.Discovery.{get_gvk}
use k8s_object_syncer.ObjectSyncController.Registry.{Registry, empty, remove, drop_optional}
use k8s_object_syncer.ObjectSyncController.Registry.Coherence.{Coherent, remove-Coherent}
use k8s_object_syncer.ObjectSyncController.Registry.Moves.{delete-Coherent}
use k8s_object_syncer.ObjectSyncController.Reconcile.{
  Controller, add_sync_finalizer_if_missing, delete, check_instance, check, checked, reconcile,
}
use k8s_object_syncer.ObjectSyncController.Reconcile.Instances.{check_instance-Coherent}
use k8s_object_syncer.ObjectSyncController.Reconcile.Identity.{KeepsObject, KeepsObject-Steady}

-- Nothing is registered yet.
pub empty-Coherent : Coherent empty
unfolding empty Dict.lookup
empty-Coherent = record {
  registered = λ k i e. ground arith;
  given = λ g n e. ground arith;
  single = λ g h n e f. ground arith;
  serves = λ g k i e f. ground arith;
}

-- Whatever holds of the registry before a reconciliation holds afterwards, if the operations that
-- touch the registry keep it.
module _ (K : Kube) (P : Registry → Type 0) where
  pub check_keeps :
      (c : Controller K)
      → P c.registry
      → ((gvk : GroupVersionKind) (c' : Controller K)
          → P c'.registry
          → P (check_instance K gvk c').1.registry)
      → P (check K c).1.registry
  unfolding check
  check_keeps c h keep =
      let (r, s) = add_sync_finalizer_if_missing K c.session in
      let (g, env) = get_gvk K s.event.modified.spec.source s.env in
      let c' = record c { session = record s { env = env } } in
      elim (Result-cases r) [
        | inr (e, failed) ↦ ground arith
        | inl (_, done) ↦ elim (Result-cases g) [
          | inr (e, unknown) ↦ ground arith
          | inl (gvk, known) ↦ ground (arith, keep gvk c' h)
        ]
      ]

  pub checked_keeps : (c : Controller K) → P (check K c).1.registry → P (checked K c).1.registry
  unfolding checked
  checked_keeps c h = ground arith

  chosen_keeps :
      (b : Bool) (c : Controller K)
      → P (delete K c).1.registry
      → P (checked K c).1.registry
      → P ((if b then delete K else checked K) c).1.registry
  chosen_keeps true c deleted done = deleted
  chosen_keeps false c deleted done = done

  pub reconcile_keeps :
      (watch_namespaces : Option (List String)) (c : Controller K)
      → P c.registry
      → P (delete K c).1.registry
      → P (checked K c).1.registry
      → P (reconcile K watch_namespaces c).1.registry
  unfolding reconcile
  reconcile_keeps watch_namespaces c h deleted done =
      ground (arith, chosen_keeps (is_deleted c.session.event) c deleted done)

  pub delete_keeps :
      (c : Controller K)
      → P (
          drop_optional
            (Dict.lookup (id K c.session.event) c.registry.instances)
            (remove (id K c.session.event) c.registry).1)
      → P (delete K c).1.registry
  unfolding delete remove
  delete_keeps c h = ground arith

module _ (K : Kube) where
  delete_run-Coherent : (c : Controller K) → Coherent c.registry → Coherent (delete K c).1.registry
  delete_run-Coherent c h =
      let k = id K c.session.event in
      delete_keeps K Coherent c (elim (Option-cases (Dict.lookup k c.registry.instances)) [
        | inl unknown ↦ rw unknown (remove-Coherent k c.registry h)
        | inr (i, known) ↦ rw known ((delete-Coherent i k c.registry h known).0)
      ])

  module _ (keeps : KeepsObject K) where
    checked-Coherent : (c : Controller K) → Coherent c.registry → Coherent (checked K c).1.registry
    checked-Coherent c h = checked_keeps K Coherent c (
        check_keeps K Coherent c h (λ gvk c' h'.
          (check_instance-Coherent K gvk c' h' (KeepsObject-Steady K keeps gvk c'.session)).0))

    -- Whatever the outcome of a reconciliation is, errors included, it keeps the maps of both
    -- controllers in agreement, if the status endpoint keeps the object that it is sent.
    reconcile-Coherent :
        (watch_namespaces : Option (List String)) (c : Controller K)
        → Coherent c.registry
        → Coherent (reconcile K watch_namespaces c).1.registry
    reconcile-Coherent watch_namespaces c h =
        reconcile_keeps K Coherent watch_namespaces c h (delete_run-Coherent c h)
          (checked-Coherent c h)

  -- The registries that come about by reconciling objects one after another, in any world.
  pub data Reached (watch_namespaces : Option (List String)) : Registry → Type 0 where
    start : Reached watch_namespaces empty
    next :
        {r : Registry} (s : Session K)
        → Reached watch_namespaces r
        → Reached watch_namespaces
            (reconcile K watch_namespaces (record { session = s; registry = r })).1.registry
