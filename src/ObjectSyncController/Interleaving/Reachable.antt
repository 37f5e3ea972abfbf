-- ===== src/ObjectSyncController/Interleaving/Reachable.antt =====
-- What holds in any interleaving from the empty maps on.
use k8s_object_syncer.Base.{
  ℕ, nat_eq, string_eq, true, false, ◌≡◌, ◌↔◌, inl, inr, arith, Option-cases,
}
use k8s_object_syncer.Base.Dict
use k8s_object_syncer.Kube.Meta.{gvk_eq}
use k8s_object_syncer.Utils.Names.{SourceRef, ObjectSyncRef, name_eq}
use k8s_object_syncer.ResourceController.Registry.Membership.{is_registered_nothing}
use k8s_object_syncer.ObjectSyncController.Registry.{Registry, empty}
use k8s_object_syncer.ObjectSyncController.Registry.Coherence.{holds, Coherent}
use k8s_object_syncer.ObjectSyncController.Interleaving.{
  idle, System, turn, Reach, IsTested, start, later,
}
use k8s_object_syncer.ObjectSyncController.Interleaving.Invariant.{matches, IsConsistent}
use k8s_object_syncer.ObjectSyncController.Interleaving.Frame.{IsSound-IsConsistent}
use k8s_object_syncer.ObjectSyncController.Interleaving.Moves.{Move-IsSound}
use k8s_object_syncer.ObjectSyncController.Reconcile.Reached.{empty-Coherent}

holds_nothing : (k : ObjectSyncRef) (id : ℕ) (src : SourceRef) → holds empty id src k ≡ false
unfolding empty Dict.lookup
holds_nothing k id src = ground (arith, is_registered_nothing src k)

start-IsConsistent : IsConsistent (record { registry = empty; task = λ _. idle })
start-IsConsistent = record {
  coherent = empty-Coherent;
  fine = λ k. tt;
  explained = λ k id src h. ground (arith, holds_nothing k id src);
}

-- If every instance that is added again after a removal is added for another kind or another source
-- (which `check` tests before it deletes the copies, and not again), then however the steps of the
-- reconciliations of different objects interleave, errors included, from the empty maps on: the maps
-- of both controllers agree, each reconciliation finds what it relies on, and nothing is registered
-- but what an instance or a reconciliation under way stands for.
pub Reach-IsConsistent : (s : System) → Reach IsTested s → IsConsistent s
Reach-IsConsistent _ start = start-IsConsistent
Reach-IsConsistent _ (later {s} reach (turn k {r} {p} move tested)) =
    let c = Reach-IsConsistent s reach in
    IsSound-IsConsistent s k r p c (Move-IsSound s c k move tested)

instance_registered :
    (r : Registry) (k : ObjectSyncRef) (id : ℕ) (src : SourceRef)
    → Coherent r
    → matches (Dict.lookup k r.instances) id src ≡ true
    → holds r id src k ≡ true
instance_registered r k id src h e = elim (Option-cases (Dict.lookup k r.instances)) [
  | inl absent ↦ ground arith
  | inr (i, here) ↦ ground (arith, h.registered k i here)
]

-- If every instance that is added again after a removal is added for another kind or another source
-- (which `check` tests before it deletes the copies, and not again), then in any interleaving, while
-- no reconciliation of an `ObjectSync` is under way, it is registered with a controller for a source
-- exactly if it has an instance of that controller and that source.
pub Reach_registered_iff :
    (s : System) (k : ObjectSyncRef) (id : ℕ) (src : SourceRef)
    → Reach IsTested s
    → s.task k ≡ idle
    → (holds s.registry id src k ≡ true)
      ↔ (matches (Dict.lookup k s.registry.instances) id src ≡ true)
Reach_registered_iff s k id src reach at =
    let c = Reach-IsConsistent s reach in
    (
      λ h. ground (arith, at, c.explained k id src h),
      instance_registered s.registry k id src c.coherent,
    )
