-- ===== src/ObjectSyncController/Reconcile/Instances.antt =====
-- What `check` makes of the registry.
pub mod Reloads
use k8s_object_syncer.Base.{
  ℕ, ◌≡◌, ◌≢◌, ◌⊎◌, ◌↔◌, refl, inl, inr, true, false, some, none, string_eq, ok, err, arith,
  Result-cases, Option-cases, Bool-cases,
}
use k8s_object_syncer.Base.Dict
use k8s_object_syncer.Kube.Meta.{GroupVersionKind, gvk_eq}
use k8s_object_syncer.Kube.Server.{Kube}
use k8s_object_syncer.Api.Types.{ObjectSync}
use k8s_object_syncer.Errors.{ControllerError}
use k8s_object_syncer.Utils.Names.{source_ref_of_sync, name_eq, ObjectSyncRef}
use k8s_object_syncer.Modifications.{Session, id}
use k8s_object_syncer.ObjectSyncController.Cleanup.{delete_all_destinations}
use k8s_object_syncer.ObjectSyncController.Registry.{
  Registry, ObjectSyncInstance, instance_of, source_changed, obtain, add, drop_instance, remove,
}
use k8s_object_syncer.ObjectSyncController.Registry.Coherence.{Coherent, add-Coherent}
use k8s_object_syncer.ObjectSyncController.Registry.Moves.{
  moved, add-lookup, move-Coherent, delete-Coherent,
}
use k8s_object_syncer.ObjectSyncController.Reconcile.{Controller, move_instance, check_instance}

-- The source counts as changed exactly if the kind differs, or the name or the namespace of the
-- source object, where an unset namespace is that of the `ObjectSync`.
pub source_changed_iff :
    (i : ObjectSyncInstance) (o : ObjectSync) (gvk : GroupVersionKind)
    → (source_changed i o gvk ≡ true)
      ↔ ((i.gvk ≢ gvk) ⊎ (i.resource_controller_handle.src ≢ source_ref_of_sync o))
unfolding source_changed source_ref_of_sync
source_changed_iff i o gvk = ground arith

pub unchanged_source :
    (i : ObjectSyncInstance) (o : ObjectSync) (gvk : GroupVersionKind)
    → source_changed i o gvk ≡ false
    → (i.gvk ≡ gvk) × (i.resource_controller_handle.src ≡ source_ref_of_sync o)
unfolding source_changed source_ref_of_sync
unchanged_source i o gvk h = ground arith

module _ (K : Kube) (gvk : GroupVersionKind) where
  -- The session after the copies have been deleted.
  abbrev cleaned : Session K → Session K
  cleaned s = (delete_all_destinations K s).1

  -- The server's answers during the deletion of the copies leave the identity and the source of
  -- the `ObjectSync` as they are.
  pub record Steady (s : Session K) : Type 0 where
    pub same_id : id K (cleaned s).event ≡ id K s.event
    pub same_source :
        source_ref_of_sync (cleaned s).event.modified ≡ source_ref_of_sync s.event.modified

  pub move_failed :
      (i : ObjectSyncInstance) (c : Controller K) (e : ControllerError)
      → (delete_all_destinations K c.session).0 ≡ err e
      → ((move_instance K i gvk c).0 ≡ err e)
        × ((move_instance K i gvk c).1.registry
            ≡ drop_instance i (remove (id K c.session.event) c.registry).1)
  unfolding move_instance
  move_failed i c e h = ground arith

  move_done :
      (i : ObjectSyncInstance) (c : Controller K)
      → (delete_all_destinations K c.session).0 ≡ ok tt
      → (move_instance K i gvk c).1.registry
        ≡ drop_instance i (
            add
              (some i)
              (source_ref_of_sync (cleaned c.session).event.modified)
              (id K (cleaned c.session).event)
              gvk
              (remove (id K c.session.event) c.registry).1)
  unfolding move_instance
  move_done i c h = ground arith

  -- There is an instance, of the given kind and for the source of the given object.
  abbrev pub UpToDate : Registry → ObjectSyncRef → ObjectSync → Type 0
  UpToDate r k o =
      (i : ObjectSyncInstance) × (Dict.lookup k r.instances ≡ some i)
      × (i.gvk ≡ gvk)
      × (i.resource_controller_handle.src ≡ source_ref_of_sync o)

  -- The registry of a successful move, in the terms before it.
  pub move_moved :
      (i : ObjectSyncInstance) (c : Controller K)
      → Steady c.session
      → (delete_all_destinations K c.session).0 ≡ ok tt
      → (move_instance K i gvk c).1.registry
        ≡ moved i
            (source_ref_of_sync c.session.event.modified)
            (id K c.session.event)
            gvk
            c.registry
  move_moved i c steady h = rw (move_done i c h, steady.same_id, steady.same_source) refl

  -- Moving an instance whose source has changed keeps the maps in agreement, also when the copies
  -- cannot all be deleted; on success the `ObjectSync` has an instance of its kind and source.
  move_instance-Coherent :
      (i : ObjectSyncInstance) (c : Controller K)
      → Coherent c.registry
      → Steady c.session
      → Dict.lookup (id K c.session.event) c.registry.instances ≡ some i
      → source_changed i c.session.event.modified gvk ≡ true
      → Coherent (move_instance K i gvk c).1.registry
        × (((e : ControllerError) × ((move_instance K i gvk c).0 ≡ err e))
            ⊎ UpToDate
                (move_instance K i gvk c).1.registry
                (id K c.session.event)
                c.session.event.modified)
  move_instance-Coherent i c h steady here differs =
      let k = id K c.session.event in
      let o = c.session.event.modified in
      let src = source_ref_of_sync o in
      elim (Result-cases (delete_all_destinations K c.session).0) [
        | inr (e, failed) ↦
            let (fails, at) = move_failed i c e failed in
            (rw at ((delete-Coherent i k c.registry h here).0), inl (e, fails))
        | inl (_, done) ↦
            let (coherent, (n, now), _) =
              move-Coherent i src k gvk c.registry h here
                ((source_changed_iff i o gvk).0 differs) in
            (
              rw (move_moved i c steady done) coherent,
              inr (rw (move_moved i c steady done) (instance_of n src k gvk, now, refl, refl)),
            )
      ]

  pub check_unchanged :
      (i : ObjectSyncInstance) (c : Controller K)
      → Dict.lookup (id K c.session.event) c.registry.instances ≡ some i
      → source_changed i c.session.event.modified gvk ≡ false
      → (check_instance K gvk c).1 ≡ c
  unfolding check_instance
  check_unchanged i c here same = ground arith

  pub check_moves :
      (i : ObjectSyncInstance) (c : Controller K)
      → Dict.lookup (id K c.session.event) c.registry.instances ≡ some i
      → source_changed i c.session.event.modified gvk ≡ true
      → ((check_instance K gvk c).1 ≡ (move_instance K i gvk c).1)
        × ((e : ControllerError)
            → (move_instance K i gvk c).0 ≡ err e
            → (check_instance K gvk c).0 ≡ err e)
  unfolding check_instance
  check_moves i c here differs = (ground arith, λ e f. ground arith)

  pub check_adds :
      (c : Controller K)
      → Dict.lookup (id K c.session.event) c.registry.instances ≡ none
      → (check_instance K gvk c).1.registry
        ≡ add none
            (source_ref_of_sync c.session.event.modified)
            (id K c.session.event)
            gvk
            c.registry
  unfolding check_instance
  check_adds c fresh = ground arith

  pub check_instance-Coherent :
      (c : Controller K)
      → Coherent c.registry
      → Steady c.session
      → Coherent (check_instance K gvk c).1.registry
        × (((e : ControllerError) × ((check_instance K gvk c).0 ≡ err e))
            ⊎ UpToDate
                (check_instance K gvk c).1.registry
                (id K c.session.event)
                c.session.event.modified)
  check_instance-Coherent c h steady =
      let k = id K c.session.event in
      let o = c.session.event.modified in
      let r = c.registry in
      elim (Option-cases (Dict.lookup k r.instances)) [
        | inl fresh ↦
            let src = source_ref_of_sync o in
            let now = add-lookup none src k gvk r h fresh in
            (
              rw (check_adds c fresh) (add-Coherent none src k gvk r h fresh),
              inr (
                  rw (check_adds c fresh)
                    (instance_of (obtain none gvk r).0 src k gvk, now, refl, refl)),
            )
        | inr (i, here) ↦ elim (Bool-cases (source_changed i o gvk)) [
          | inl changed ↦
              let (coherent, result) = move_instance-Coherent i c h steady here changed in
              let (at, fails) = check_moves i c here changed in
              (
                rw at coherent,
                elim result [ inl (e, f) ↦ inl (e, fails e f) | inr settled ↦ inr (rw at settled) ],
              )
          | inr same ↦ (
            rw (check_unchanged i c here same) h,
            inr (
                rw (check_unchanged i c here same)
                  (i, here, (unchanged_source i o gvk same).0, (unchanged_source i o gvk same).1)),
          )
        ]
      ]
