-- ===== src/ObjectSyncController/Registry/Moves.antt =====
-- What `check` and `delete` make of the registry, by the operations that they are composed of.
use k8s_object_syncer.Base.{
  ℕ, nat_eq, string_eq, false, ◌≡◌, ◌≢◌, ◌⊎◌, Option, none, some, arith, inl, inr, Option-cases,
}
use k8s_object_syncer.Base.Dict
use k8s_object_syncer.Base.Dict.{lookup-insert, lookup-remove}
use k8s_object_syncer.Kube.Meta.{GroupVersionKind, gvk_eq}
use k8s_object_syncer.Utils.Names.{SourceRef, ObjectSyncRef, name_eq}
use k8s_object_syncer.ObjectSyncController.Registry.{
  Registry, ObjectSyncInstance, upgrade, obtain, register, drop_instance, instance_of, is_alive,
  remove, add,
}
use k8s_object_syncer.ObjectSyncController.Registry.Coherence.{
  holds, Coherent, remove-Coherent, drop_instance-Coherent, obtain_fresh, obtain_old,
  upgrade-lookup, obtain-Obtained, placed, add-placed, add-Coherent, holds-drop_instance,
}

-- A controller that an instance of another kind has is not the one that is obtained.
obtain_serves :
    (held : Option ObjectSyncInstance) (gvk : GroupVersionKind) (k : ObjectSyncRef)
    (i : ObjectSyncInstance) (r : Registry)
    → Coherent r
    → Dict.lookup k r.instances ≡ some i
    → (obtain held gvk (remove k r).1).0 ≡ i.resource_controller
    → i.gvk ≡ gvk
unfolding remove
obtain_serves held gvk k i r h here same = elim (Option-cases (upgrade held gvk (remove k r).1)) [
  | inl fresh ↦ ground (arith, h.registered k i, obtain_fresh held gvk (remove k r).1 fresh)
  | inr (id, e) ↦ ground (
    arith,
    h.serves gvk k i,
    obtain_old held gvk (remove k r).1 id e,
    upgrade-lookup held gvk (remove k r).1 id e,
  )
]

pub remove_free : (k : ObjectSyncRef) (r : Registry) → Dict.lookup k (remove k r).1.instances ≡ none
unfolding remove
remove_free k r = ground (arith, lookup-remove k k r.instances)

-- The registry after `check` has moved an instance.
abbrev pub moved :
    ObjectSyncInstance → SourceRef → ObjectSyncRef → GroupVersionKind → Registry → Registry
moved i src k gvk r = drop_instance i (add (some i) src k gvk (remove k r).1)

pub add-lookup :
    (held : Option ObjectSyncInstance) (src : SourceRef) (crd : ObjectSyncRef)
    (gvk : GroupVersionKind) (r : Registry)
    → Coherent r
    → Dict.lookup crd r.instances ≡ none
    → Dict.lookup crd (add held src crd gvk r).instances
      ≡ some (instance_of (obtain held gvk r).0 src crd gvk)
unfolding placed register
add-lookup held src crd gvk r h free =
    let o = obtain-Obtained held gvk r h in
    let j = instance_of (obtain held gvk r).0 src crd gvk in
    rw (add-placed held src crd gvk r (rw o.kept free))
      (ground (arith, lookup-insert crd crd j (obtain held gvk r).1.instances))

-- An instance is moved to another kind or another source: the maps stay in agreement, the
-- `ObjectSync` now has an instance of the new kind and source, and it is no longer registered for
-- the old source with the old controller.
pub move-Coherent :
    (i : ObjectSyncInstance) (src : SourceRef) (k : ObjectSyncRef) (gvk : GroupVersionKind)
    (r : Registry)
    → Coherent r
    → Dict.lookup k r.instances ≡ some i
    → (i.gvk ≢ gvk) ⊎ (i.resource_controller_handle.src ≢ src)
    → Coherent (moved i src k gvk r)
      × ((id : ℕ) × (Dict.lookup k (moved i src k gvk r).instances
            ≡ some (instance_of id src k gvk)))
      × (holds (moved i src k gvk r) i.resource_controller i.resource_controller_handle.src k
          ≡ false)
unfolding drop_instance
move-Coherent i src k gvk r h here differs =
    let r0 = (remove k r).1 in
    let free = remove_free k r in
    let added = add-lookup (some i) src k gvk r0 (remove-Coherent k r h) free in
    (
      drop_instance-Coherent i (add (some i) src k gvk r0)
          (add-Coherent (some i) src k gvk r0 (remove-Coherent k r h) free)
          (λ j e. ground (arith, h.registered k i, obtain_serves (some i) gvk k i r h here)),
      ((obtain (some i) gvk r0).0, added),
      ground (
        arith,
        h.registered k i,
        holds-drop_instance i i.resource_controller i.resource_controller_handle.src k
            (add (some i) src k gvk r0),
      ),
    )

-- The clone that the caller holds keeps its controller alive.
obtain_held :
    (i : ObjectSyncInstance) (gvk : GroupVersionKind) (k : ObjectSyncRef) (r : Registry)
    → Dict.lookup gvk r.resource_controllers ≡ some i.resource_controller
    → (obtain (some i) gvk (remove k r).1).0 ≡ i.resource_controller
unfolding obtain upgrade is_alive remove
obtain_held i gvk k r known = ground arith

-- Deleting an `ObjectSync` takes its instance away and drops the handle: the maps stay in
-- agreement, and it is no longer registered with the controller of that instance.
pub delete-Coherent :
    (i : ObjectSyncInstance) (k : ObjectSyncRef) (r : Registry)
    → Coherent r
    → Dict.lookup k r.instances ≡ some i
    → Coherent (drop_instance i (remove k r).1)
      × (holds
            (drop_instance i (remove k r).1)
            i.resource_controller
            i.resource_controller_handle.src
            k
          ≡ false)
delete-Coherent i k r h here =
    let r0 = (remove k r).1 in
    let free = remove_free k r in
    (
      drop_instance-Coherent i r0 (remove-Coherent k r h) (λ j e. ground (arith, h.registered k i)),
      ground (
        arith,
        h.registered k i,
        holds-drop_instance i i.resource_controller i.resource_controller_handle.src k r0,
      ),
    )

-- A move to the source and the kind that the instance already had, while the map still knows its
-- controller, takes the registration away with the old handle, and keeps the instance.
pub move_unchanged :
    (i : ObjectSyncInstance) (k : ObjectSyncRef) (r : Registry)
    → Coherent r
    → Dict.lookup k r.instances ≡ some i
    → Dict.lookup i.gvk r.resource_controllers ≡ some i.resource_controller
    → (Dict.lookup k (moved i i.resource_controller_handle.src k i.gvk r).instances ≡ some i)
      × (holds
            (moved i i.resource_controller_handle.src k i.gvk r)
            i.resource_controller
            i.resource_controller_handle.src
            k
          ≡ false)
unfolding drop_instance
move_unchanged i k r h here known =
    let src = i.resource_controller_handle.src in
    let r0 = (remove k r).1 in
    let free = remove_free k r in
    let id = (obtain (some i) i.gvk r0).0 in
    (
      ground (
        arith,
        h.registered k i,
        obtain_held i i.gvk k r known,
        add-lookup (some i) src k i.gvk r0 (remove-Coherent k r h) free,
      ),
      ground (
        arith,
        h.registered k i,
        holds-drop_instance i i.resource_controller src k (add (some i) src k i.gvk r0),
      ),
    )
