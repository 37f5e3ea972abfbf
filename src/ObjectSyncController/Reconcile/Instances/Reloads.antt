-- ===== src/ObjectSyncController/Reconcile/Instances/Reloads.antt =====
-- When `check` tells a resource controller to reconcile its sources.
use mathlib.Core.Option as Option
use k8s_object_syncer.Base.{
  ◌≡◌, ◌≢◌, ◌⊎◌, ◌∷◌, Option, refl, inl, inr, true, false, some, none, Result, ok, arith,
  Result-cases, Option-cases, Bool-cases,
}
use k8s_object_syncer.Base.Dict
use k8s_object_syncer.Kube.Meta.{GroupVersionKind, gvk_eq}
use k8s_object_syncer.Kube.Server.{Kube}
use k8s_object_syncer.Api.Types.{Condition}
use k8s_object_syncer.Errors.{ControllerError}
use k8s_object_syncer.Utils.Names.{SourceRef, source_ref_of_sync, name_eq, ObjectSyncRef}
use k8s_object_syncer.Modifications.{id}
use k8s_object_syncer.ObjectSyncController.Cleanup.{delete_all_destinations}
use k8s_object_syncer.ObjectSyncController.Registry.{
  Registry, ObjectSyncInstance, source_changed, obtain, register, add, drop_instance, remove,
}
use k8s_object_syncer.ObjectSyncController.Registry.Coherence.{Coherent, remove-Coherent}
use k8s_object_syncer.ObjectSyncController.Registry.Moves.{moved, add-lookup, remove_free}
use k8s_object_syncer.ObjectSyncController.Reconcile.{
  Controller, registered_condition, moved_condition, move_instance, check_instance,
}
use k8s_object_syncer.ObjectSyncController.Reconcile.Instances.{
  Steady, source_changed_iff, check_unchanged, check_moves, check_adds, move_failed, move_moved,
}

-- If a condition is to be reported, then the controller of the instance that now stands under the
-- `ObjectSync` has been told, once, to reconcile its sources; otherwise none has been told.
abbrev pub Told :
    ObjectSyncRef → Registry → Registry → Result ControllerError (Option Condition) → Type 0
Told k before after (ok (some c)) =
    Option.map (λ (i : ObjectSyncInstance). i.resource_controller ∷ before.reloads)
      (Dict.lookup k after.instances)
    ≡ some after.reloads
Told k before after _ = after.reloads ≡ before.reloads

-- An `ObjectSync` without an instance is registered, and one whose instance is of this kind and for
-- this source leaves the maps as they are.
abbrev pub Settles :
    GroupVersionKind
    → SourceRef
    → Option ObjectSyncInstance
    → Registry
    → Registry
    → Result ControllerError (Option Condition)
    → Type 0
Settles gvk src none before after (ok (some c)) = Unit
Settles gvk src none before after _ = ⊥
Settles gvk src (some i) before after r =
    (i.gvk ≢ gvk) ⊎ (i.resource_controller_handle.src ≢ src) ⊎ ((after ≡ before) × (r ≡ ok none))

add-reloads :
    (held : Option ObjectSyncInstance) (src : SourceRef) (crd : ObjectSyncRef)
    (gvk : GroupVersionKind) (r : Registry)
    → (add held src crd gvk r).reloads ≡ (obtain held gvk r).0 ∷ r.reloads
unfolding add register obtain drop_instance
add-reloads held src crd gvk r = ground arith

module _ (K : Kube) (gvk : GroupVersionKind) where
  check_adds_result :
      (c : Controller K)
      → Dict.lookup (id K c.session.event) c.registry.instances ≡ none
      → (check_instance K gvk c).0
        ≡ ok (some (registered_condition gvk (source_ref_of_sync c.session.event.modified)))
  unfolding check_instance
  check_adds_result c fresh = ground arith

  check_unchanged_result :
      (i : ObjectSyncInstance) (c : Controller K)
      → Dict.lookup (id K c.session.event) c.registry.instances ≡ some i
      → source_changed i c.session.event.modified gvk ≡ false
      → (check_instance K gvk c).0 ≡ ok none
  unfolding check_instance
  check_unchanged_result i c here same = ground arith

  check_moves_result :
      (i : ObjectSyncInstance) (c : Controller K)
      → Dict.lookup (id K c.session.event) c.registry.instances ≡ some i
      → source_changed i c.session.event.modified gvk ≡ true
      → (delete_all_destinations K c.session).0 ≡ ok tt
      → (check_instance K gvk c).0
        ≡ ok (
            some (
              moved_condition i gvk
                (source_ref_of_sync (delete_all_destinations K c.session).1.event.modified)))
  unfolding check_instance move_instance
  check_moves_result i c here differs done = ground arith

  -- The controllers that were told after a move, and the instance that stands afterwards.
  moved-reloads :
      (i : ObjectSyncInstance) (src : SourceRef) (k : ObjectSyncRef) (r : Registry)
      → Coherent r
      → Option.map
          (λ (j : ObjectSyncInstance). j.resource_controller ∷ r.reloads)
          (Dict.lookup k (moved i src k gvk r).instances)
        ≡ some (moved i src k gvk r).reloads
  unfolding drop_instance remove
  moved-reloads i src k r h =
      let r0 = (remove k r).1 in
      ground (
        arith,
        add-reloads (some i) src k gvk r0,
        add-lookup (some i) src k gvk r0 (remove-Coherent k r h) (remove_free k r),
      )

  dropped-reloads :
      (i : ObjectSyncInstance) (k : ObjectSyncRef) (r : Registry)
      → (drop_instance i (remove k r).1).reloads ≡ r.reloads
  unfolding drop_instance remove
  dropped-reloads i k r = ground arith

  check_instance-tells :
      (c : Controller K)
      → Coherent c.registry
      → Steady K gvk c.session
      → Told
          (id K c.session.event)
          c.registry
          (check_instance K gvk c).1.registry
          (check_instance K gvk c).0
  check_instance-tells c h steady =
      let k = id K c.session.event in
      let o = c.session.event.modified in
      let r = c.registry in
      let src = source_ref_of_sync o in
      elim (Option-cases (Dict.lookup k r.instances)) [
        | inl fresh ↦
            rw (check_adds K gvk c fresh, check_adds_result c fresh)
              (ground (arith, add-reloads none src k gvk r, add-lookup none src k gvk r h fresh))
        | inr (i, here) ↦ elim (Bool-cases (source_changed i o gvk)) [
          | inr same ↦
              rw (check_unchanged K gvk i c here same, check_unchanged_result i c here same) refl
          | inl changed ↦ elim (Result-cases (delete_all_destinations K c.session).0) [
            | inr (e, failed) ↦
                let (at, fails) = check_moves K gvk i c here changed in
                let (stops, dropped) = move_failed K gvk i c e failed in
                rw (at, dropped, fails e stops) (dropped-reloads i k r)
            | inl (_, done) ↦
                rw
                  (
                    (check_moves K gvk i c here changed).0,
                    move_moved K gvk i c steady done,
                    check_moves_result i c here changed done,
                  )
                  (moved-reloads i src k r h)
          ]
        ]
      ]

  check_instance-Settles :
      (c : Controller K)
      → Settles gvk
          (source_ref_of_sync c.session.event.modified)
          (Dict.lookup (id K c.session.event) c.registry.instances)
          c.registry
          (check_instance K gvk c).1.registry
          (check_instance K gvk c).0
  check_instance-Settles c =
      let k = id K c.session.event in
      let o = c.session.event.modified in
      let r = c.registry in
      elim (Option-cases (Dict.lookup k r.instances)) [
        | inl fresh ↦ rw (fresh, check_adds_result c fresh) tt
        | inr (i, here) ↦ elim (Bool-cases (source_changed i o gvk)) [
          | inr same ↦
              rw (here, check_unchanged K gvk i c here same, check_unchanged_result i c here same)
                (inr (inr (refl, refl)))
          | inl changed ↦ rw here (elim ((source_changed_iff i o gvk).0 changed) [
            | inl kind ↦ inl kind
            | inr source ↦ inr (inl source)
          ])
        ]
      ]

  -- `check` reports that an `ObjectSync` was registered or moved exactly if the controller of its
  -- instance has been told to reconcile its sources, and it tells no other. One that has no
  -- instance is registered and so tells; one whose instance is of the discovered kind and for its
  -- source leaves the maps as they are, and one whose copies cannot be deleted tells none. The
  -- answers to the deletion of copies are to leave the identity and the source as they are.
  pub check_instance-Told :
      (c : Controller K)
      → Coherent c.registry
      → Steady K gvk c.session
      → Told
          (id K c.session.event)
          c.registry
          (check_instance K gvk c).1.registry
          (check_instance K gvk c).0
        × Settles gvk
            (source_ref_of_sync c.session.event.modified)
            (Dict.lookup (id K c.session.event) c.registry.instances)
            c.registry
            (check_instance K gvk c).1.registry
            (check_instance K gvk c).0
  check_instance-Told c h steady = (check_instance-tells c h steady, check_instance-Settles c)
