-- ===== src/ObjectSyncController/Interleaving/Refines.antt =====
-- A reconciliation of Reconcile does to the maps what steps of Interleaving do.
use mathlib.Core.Path.{subst}
use k8s_object_syncer.Base.{
  ℕ, ◌↔◌, true, String, string_eq, List, ◌≡◌, refl, [], ◌∷◌, Option, none, inl, inr, arith,
  Option-cases, Bool-cases, Result-cases,
}
use k8s_object_syncer.Base.Dict
use k8s_object_syncer.Base.Dict.{Dict}
use k8s_object_syncer.Kube.Meta.{GroupVersionKind, gvk_eq}
use k8s_object_syncer.Kube.Server.{Kube}
use k8s_object_syncer.Utils.Names.{SourceRef, ObjectSyncRef, name_eq, source_ref_of_sync}
use k8s_object_syncer.Modifications.{id}
use k8s_object_syncer.ObjectSyncController.Cleanup.{delete_all_destinations}
use k8s_object_syncer.ObjectSyncController.Registry.{Registry, source_changed, remove}
use k8s_object_syncer.ObjectSyncController.Reconcile.{Controller, check_instance, delete, reconcile}
use k8s_object_syncer.ObjectSyncController.Reconcile.Instances.{
  Steady, source_changed_iff, move_failed, move_moved, check_unchanged, check_moves, check_adds,
}
use k8s_object_syncer.ObjectSyncController.Reconcile.Identity.{KeepsObject, KeepsObject-Steady}
use k8s_object_syncer.ObjectSyncController.Registry.Coherence.{holds}
use k8s_object_syncer.ObjectSyncController.Reconcile.Reached.{
  Reached, start, next, check_keeps, checked_keeps, delete_keeps, reconcile_keeps,
}
use k8s_object_syncer.ObjectSyncController.Interleaving.{idle, System, Reach, IsTested}
use k8s_object_syncer.ObjectSyncController.Interleaving.Invariant.{matches}
use k8s_object_syncer.ObjectSyncController.Interleaving.Reachable.{Reach_registered_iff}
use k8s_object_syncer.ObjectSyncController.Interleaving.Runs.{
  Reach-Steps, none_yet, Steps, quiet, alone, at_idle, given_up-GetsTo, moved-GetsTo,
  deleted-GetsTo, added-GetsTo,
}

remove_absent {ℓ} :
    {V : Type ℓ} (k : ObjectSyncRef) (d : Dict ObjectSyncRef V)
    → Dict.lookup k d ≡ none
    → Dict.remove k d ≡ d
unfolding Dict.lookup Dict.remove
remove_absent k [] h = refl
remove_absent k (_ ∷ d) h = ground (arith, remove_absent k d)

module _ (s : System) (k : ObjectSyncRef) (r : Registry) where
  begun : Steps IsTested s (quiet r) → Steps IsTested s (alone k idle r)
  begun steps = rw (at_idle k r) steps

  ended : Steps IsTested s (alone k idle r) → Steps IsTested s (quiet r)
  ended steps = subst (Steps IsTested s) (at_idle k r) steps

module _ (K : Kube) (s : System) where
  -- The part of `check` after the discovery.
  check_instance-Steps :
      (gvk : GroupVersionKind) (c : Controller K)
      → Steady K gvk c.session
      → Steps IsTested s (quiet c.registry)
      → Steps IsTested s (quiet (check_instance K gvk c).1.registry)
  check_instance-Steps gvk c steady steps =
      let k = id K c.session.event in
      let o = c.session.event.modified in
      let src = source_ref_of_sync o in
      let r = c.registry in
      let steps' = begun s k r steps in
      elim (Option-cases (Dict.lookup k r.instances)) [
        | inl fresh ↦
            rw (check_adds K gvk c fresh) (ended s k _ (added-GetsTo s k src gvk r fresh steps'))
        | inr (i, here) ↦ elim (Bool-cases (source_changed i o gvk)) [
          | inr same ↦ rw (check_unchanged K gvk i c here same) steps
          | inl changed ↦
              let differs = (source_changed_iff i o gvk).0 changed in
              rw ((check_moves K gvk i c here changed).0)
                (elim (Result-cases (delete_all_destinations K c.session).0) [
                  | inr (e, failed) ↦
                      rw ((move_failed K gvk i c e failed).1)
                        (ended s k _ (given_up-GetsTo s k i r here steps'))
                  | inl (_, done) ↦
                      rw (move_moved K gvk i c steady done)
                        (ended s k _ (moved-GetsTo s k i src gvk r here differs steps'))
                ])
        ]
      ]

  delete-Steps :
      (c : Controller K)
      → Steps IsTested s (quiet c.registry)
      → Steps IsTested s (quiet (delete K c).1.registry)
  unfolding remove
  delete-Steps c steps =
      let k = id K c.session.event in
      let r = c.registry in
      delete_keeps K (λ x. Steps IsTested s (quiet x)) c
        (elim (Option-cases (Dict.lookup k r.instances)) [
          | inl unknown ↦ rw (unknown, remove_absent k r.instances unknown) steps
          | inr (i, known) ↦
              rw known (ended s k _ (deleted-GetsTo s k i r known (begun s k r steps)))
        ])

-- Whatever the outcome of a reconciliation of the code is, errors included, its effect on the maps
-- is that of steps of Interleaving, in which an instance is added again after a removal only for
-- another kind or another source, if the status endpoint keeps the object that it is sent.
pub reconcile-Steps :
    (K : Kube) (watch_namespaces : Option (List String)) (c : Controller K)
    → KeepsObject K
    → Steps IsTested (quiet c.registry) (quiet (reconcile K watch_namespaces c).1.registry)
reconcile-Steps K watch_namespaces c keeps =
    let s = quiet c.registry in
    let P : Registry → Type 0 = λ x. Steps IsTested s (quiet x) in
    reconcile_keeps K P watch_namespaces c none_yet (delete-Steps K s c none_yet) (
      checked_keeps K P c (
        check_keeps K P c none_yet (λ gvk c' h.
          check_instance-Steps K s gvk c' (KeepsObject-Steady K keeps gvk c'.session) h)))

Reached-Reach :
    (K : Kube) (watch_namespaces : Option (List String)) (r : Registry)
    → KeepsObject K
    → Reached K watch_namespaces r
    → Reach IsTested (quiet r)
Reached-Reach K watch_namespaces _ keeps start = Reach.start
Reached-Reach K watch_namespaces _ keeps (next {r} s reached) =
    Reach-Steps (Reached-Reach K watch_namespaces r keeps reached)
      (reconcile-Steps K watch_namespaces (record { session = s; registry = r }) keeps)

-- After any sequence of reconciliations of the code, whichever of them fail, an `ObjectSync` is
-- registered with a controller for a source exactly if it has an instance of that controller and
-- that source, if the status endpoint keeps the object that it is sent.
pub Reached_registered_iff :
    (K : Kube) (watch_namespaces : Option (List String)) (r : Registry) (k : ObjectSyncRef) (n : ℕ)
    (src : SourceRef)
    → KeepsObject K
    → Reached K watch_namespaces r
    → (holds r n src k ≡ true) ↔ (matches (Dict.lookup k r.instances) n src ≡ true)
Reached_registered_iff K watch_namespaces r k n src keeps reached =
    Reach_registered_iff (quiet r) k n src (Reached-Reach K watch_namespaces r keeps reached) refl
