-- ===== src/ObjectSyncController/Registry/Coherence.antt =====
-- The maps of both controllers agree: what the `ObjectSync` controller holds as an instance is
-- registered with the resource controller of that instance.
use k8s_object_syncer.Base.{
  ℕ, ◌<◌, nat_eq, string_eq, Bool, true, not, ◌||◌, ◌&&◌, ◌==◌, ◌≡◌, ◌≢◌, ◌⊎◌, Option, none, some,
  [], arith, refl, inl, inr, Option-cases,
}
use k8s_object_syncer.Base.Dict
use k8s_object_syncer.Base.Dict.{lookup-insert, lookup-remove}
use k8s_object_syncer.Kube.Meta.{GroupVersionKind, gvk_eq}
use k8s_object_syncer.Utils.Names.{SourceRef, ObjectSyncRef, name_eq}
use k8s_object_syncer.ResourceController.Registry.{register_source, drop_handle}
use k8s_object_syncer.ResourceController.Registry.Membership.{
  is_registered, is_registered-register_source, is_registered-drop_handle,
}
use k8s_object_syncer.ObjectSyncController.Registry.{
  Registry, ObjectSyncInstance, sources_of, upgrade, started, obtain, register, drop_instance,
  instance_of, remove, add,
}

-- The `ObjectSync` is registered for the source with the resource controller.
abbrev pub holds : Registry → ℕ → SourceRef → ObjectSyncRef → Bool
holds r id src crd = is_registered src crd (sources_of r id)

pub record Coherent (r : Registry) : Type 0 where
  -- An instance stands under its own `ObjectSync`, which its controller has registered.
  pub registered :
      (k : ObjectSyncRef) (i : ObjectSyncInstance)
      → Dict.lookup k r.instances ≡ some i
      → (i.resource_controller_handle.crd ≡ k)
        × (holds r i.resource_controller i.resource_controller_handle.src k ≡ true)
        × (i.resource_controller < r.next)
  -- A controller of the map has a number that is given out, and serves one kind.
  pub given :
      (g : GroupVersionKind) (id : ℕ) → Dict.lookup g r.resource_controllers ≡ some id → id < r.next
  pub single :
      (g h : GroupVersionKind) (id : ℕ)
      → Dict.lookup g r.resource_controllers ≡ some id
      → Dict.lookup h r.resource_controllers ≡ some id
      → g ≡ h
  pub serves :
      (g : GroupVersionKind) (k : ObjectSyncRef) (i : ObjectSyncInstance)
      → Dict.lookup g r.resource_controllers ≡ some i.resource_controller
      → Dict.lookup k r.instances ≡ some i
      → i.gvk ≡ g

pub holds-register :
    (id j : ℕ) (src s : SourceRef) (crd c : ObjectSyncRef) (r : Registry)
    → holds (register id src crd r) j s c ≡ (holds r j s c || (j == id && (src == s && crd == c)))
unfolding register
holds-register id j src s crd c r = ground (
  arith,
  lookup-insert j id (register_source src crd (sources_of r id)) r.sources,
  is_registered-register_source src s crd c (sources_of r id),
)

pub holds-drop_instance :
    (i : ObjectSyncInstance) (j : ℕ) (s : SourceRef) (c : ObjectSyncRef) (r : Registry)
    → holds (drop_instance i r) j s c ≡ (
        holds r j s c
        && not (
            j == i.resource_controller
            && (i.resource_controller_handle.src == s && i.resource_controller_handle.crd == c)))
unfolding drop_instance
holds-drop_instance i j s c r =
    let id = i.resource_controller in
    ground (
      arith,
      lookup-insert j id (drop_handle i.resource_controller_handle (sources_of r id)) r.sources,
      is_registered-drop_handle i.resource_controller_handle s c (sources_of r id),
    )

pub remove-Coherent : (k : ObjectSyncRef) (r : Registry) → Coherent r → Coherent (remove k r).1
unfolding remove
remove-Coherent k r h = record {
  registered = λ j i e. ground (arith, lookup-remove j k r.instances, h.registered j i);
  given = h.given;
  single = h.single;
  serves = λ g j i e f. ground (arith, lookup-remove j k r.instances, h.serves g j i);
}

-- A handle is dropped that stands for no instance of the map.
pub drop_instance-Coherent :
    (i : ObjectSyncInstance) (r : Registry)
    → Coherent r
    → ((j : ObjectSyncInstance)
        → Dict.lookup i.resource_controller_handle.crd r.instances ≡ some j
        → (j.resource_controller ≢ i.resource_controller)
          ⊎ (j.resource_controller_handle.src ≢ i.resource_controller_handle.src))
    → Coherent (drop_instance i r)
unfolding drop_instance
drop_instance-Coherent i r h other = record {
  registered = λ k j e.
      let src = j.resource_controller_handle.src in
      ground
        (arith, h.registered k j, other j, holds-drop_instance i j.resource_controller src k r);
  given = h.given;
  single = h.single;
  serves = h.serves;
}

-- What a controller that is obtained for a kind is like.
pub record Obtained (gvk : GroupVersionKind) (r : Registry) (id : ℕ) (r' : Registry) : Type 0 where
  pub coherent : Coherent r'
  pub known : Dict.lookup gvk r'.resource_controllers ≡ some id
  pub kept : r'.instances ≡ r.instances

pub upgrade-lookup :
    (held : Option ObjectSyncInstance) (gvk : GroupVersionKind) (r : Registry) (id : ℕ)
    → upgrade held gvk r ≡ some id
    → Dict.lookup gvk r.resource_controllers ≡ some id
unfolding upgrade
upgrade-lookup held gvk r id h = ground arith

pub started-Coherent :
    (gvk : GroupVersionKind) (r : Registry) → Coherent r → Coherent (started gvk r)
unfolding started
started-Coherent gvk r h = record {
  registered = λ k j e.
      ground (arith, h.registered k j, lookup-insert j.resource_controller r.next [] r.sources);
  given = λ g id e. ground (arith, lookup-insert g gvk r.next r.resource_controllers, h.given g id);
  single = λ g g' id e f. ground (
    arith,
    lookup-insert g gvk r.next r.resource_controllers,
    lookup-insert g' gvk r.next r.resource_controllers,
    h.given g id,
    h.given g' id,
    h.single g g' id,
  );
  serves = λ g k j e f.
      ground (
        arith,
        lookup-insert g gvk r.next r.resource_controllers,
        h.registered k j,
        h.serves g k j,
      );
}

pub obtain_fresh :
    (held : Option ObjectSyncInstance) (gvk : GroupVersionKind) (r : Registry)
    → upgrade held gvk r ≡ none
    → obtain held gvk r ≡ (r.next, started gvk r)
unfolding obtain started
obtain_fresh held gvk r h = rw (obtain, h) refl

pub obtain_old :
    (held : Option ObjectSyncInstance) (gvk : GroupVersionKind) (r : Registry) (id : ℕ)
    → upgrade held gvk r ≡ some id
    → obtain held gvk r ≡ (id, r)
unfolding obtain
obtain_old held gvk r id h = rw (obtain, h) refl

pub obtain-Obtained :
    (held : Option ObjectSyncInstance) (gvk : GroupVersionKind) (r : Registry)
    → Coherent r
    → Obtained gvk r (obtain held gvk r).0 (obtain held gvk r).1
unfolding started
obtain-Obtained held gvk r h = elim (Option-cases (upgrade held gvk r)) [
  | inl fresh ↦ rw (obtain_fresh held gvk r fresh) (record {
    coherent = started-Coherent gvk r h;
    known = ground (arith, lookup-insert gvk gvk r.next r.resource_controllers);
    kept = refl;
  })
  | inr (id, e) ↦
      rw (obtain_old held gvk r id e)
        (record { coherent = h; known = upgrade-lookup held gvk r id e; kept = refl })
]

-- The registry with a new instance under a free key.
unfoldable pub placed : ℕ → SourceRef → ObjectSyncRef → GroupVersionKind → Registry → Registry
placed id src crd gvk r =
    let r' = register id src crd r in
    record r' { instances = Dict.insert crd (instance_of id src crd gvk) r'.instances }

placed-Coherent :
    (id : ℕ) (src : SourceRef) (crd : ObjectSyncRef) (gvk : GroupVersionKind) (r : Registry)
    → Coherent r
    → Dict.lookup gvk r.resource_controllers ≡ some id
    → Coherent (placed id src crd gvk r)
unfolding placed register
placed-Coherent id src crd gvk r h known = record {
  registered = λ k j e. ground (
    arith,
    h.given gvk id,
    h.registered k j,
    lookup-insert k crd (instance_of id src crd gvk) r.instances,
    holds-register id j.resource_controller src j.resource_controller_handle.src crd k r,
  );
  given = h.given;
  single = h.single;
  serves = λ g k j e f. ground (
    arith,
    h.serves g k j,
    h.single g gvk id,
    lookup-insert k crd (instance_of id src crd gvk) r.instances,
  );
}

pub add-placed :
    (held : Option ObjectSyncInstance) (src : SourceRef) (crd : ObjectSyncRef)
    (gvk : GroupVersionKind) (r : Registry)
    → Dict.lookup crd (obtain held gvk r).1.instances ≡ none
    → add held src crd gvk r ≡ placed (obtain held gvk r).0 src crd gvk (obtain held gvk r).1
unfolding add placed register
add-placed held src crd gvk r h = rw h refl

-- Registering an `ObjectSync` that is not there yet keeps the maps in agreement.
pub add-Coherent :
    (held : Option ObjectSyncInstance) (src : SourceRef) (crd : ObjectSyncRef)
    (gvk : GroupVersionKind) (r : Registry)
    → Coherent r
    → Dict.lookup crd r.instances ≡ none
    → Coherent (add held src crd gvk r)
add-Coherent held src crd gvk r h free =
    let o = obtain-Obtained held gvk r h in
    rw (add-placed held src crd gvk r (rw o.kept free))
      (placed-Coherent (obtain held gvk r).0 src crd gvk (obtain held gvk r).1 o.coherent o.known)
