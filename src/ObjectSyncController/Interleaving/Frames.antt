-- ===== src/ObjectSyncController/Interleaving/Frames.antt =====
-- What each operation on the maps leaves to the other objects.
use k8s_object_syncer.Base.{
  ℕ, ◌<◌, nat_eq, string_eq, true, ◌==◌, ◌≡◌, refl, none, some, [], inl, inr, arith, Option-cases,
  Bool-cases,
}
use k8s_object_syncer.Base.Dict
use k8s_object_syncer.Base.Dict.{lookup-insert, lookup-remove}
use k8s_object_syncer.Kube.Meta.{GroupVersionKind, gvk_eq}
use k8s_object_syncer.Utils.Names.{SourceRef, ObjectSyncRef, name_eq}
use k8s_object_syncer.ResourceController.Registry.Membership.{is_registered_nothing}
use k8s_object_syncer.ObjectSyncController.Registry.{
  Registry, ObjectSyncInstance, started, register, drop_instance, remove, place_instance,
  instance_of,
}
use k8s_object_syncer.ObjectSyncController.Registry.Coherence.{
  holds, holds-register, holds-drop_instance,
}
use k8s_object_syncer.ObjectSyncController.Interleaving.{
  Phase, idle, holding, removed, obtained, registered, inserted, System, IsAlive,
}
use k8s_object_syncer.ObjectSyncController.Interleaving.Invariant.{Fine, claims, IsConsistent}
use k8s_object_syncer.ObjectSyncController.Interleaving.Frame.{Frame}

module _ (s : System) (k : ObjectSyncRef) where
  pub Frame-refl : Frame s k s.registry
  Frame-refl = record {
    instances = λ j other. refl;
    grows = omega arith;
    kinds = λ g id e given. e;
    alive = λ g id e lives. e;
    registrations = λ j id src other. refl;
  }

  pub Frame-remove : Frame s k (remove k s.registry).1
  unfolding remove
  Frame-remove = record {
    instances = λ j other. ground (arith, lookup-remove j k s.registry.instances);
    grows = omega arith;
    kinds = λ g id e given. e;
    alive = λ g id e lives. e;
    registrations = λ j id src other. refl;
  }

  pub Frame-register : (id : ℕ) (src : SourceRef) → Frame s k (register id src k s.registry)
  unfolding register
  Frame-register id src = record {
    instances = λ j other. refl;
    grows = omega arith;
    kinds = λ g id e given. e;
    alive = λ g id e lives. e;
    registrations =
        λ j id' src' other. ground (arith, holds-register id id' src src' k j s.registry);
  }

  pub Frame-place :
      (id : ℕ) (src : SourceRef) (gvk : GroupVersionKind)
      → Dict.lookup k s.registry.instances ≡ none
      → Frame s k (place_instance id src k gvk s.registry)
  unfolding place_instance
  Frame-place id src gvk free = rw free (record {
    instances = λ j other.
        ground (arith, lookup-insert j k (instance_of id src k gvk) s.registry.instances);
    grows = omega arith;
    kinds = λ g id e given. e;
    alive = λ g id e lives. e;
    registrations = λ j id src other. refl;
  })

  -- A handle of the object is dropped after a change that is framed.
  pub Frame-drop_instance :
      (i : ObjectSyncInstance) (r : Registry)
      → Frame s k r
      → i.resource_controller_handle.crd ≡ k
      → Frame s k (drop_instance i r)
  unfolding drop_instance
  Frame-drop_instance i r f own = record {
    instances = f.instances;
    grows = f.grows;
    kinds = f.kinds;
    alive = f.alive;
    registrations = λ j id src other.
        ground (arith, f.registrations j id src other, holds-drop_instance i id src j r);
  }

-- What is registered is registered with a controller whose number is given out.
module _ (s : System) (c : IsConsistent s) where
  claims_given :
      (k : ObjectSyncRef) (p : Phase) (id : ℕ) (src : SourceRef)
      → Fine s.registry k p
      → claims p id src ≡ true
      → id < s.registry.next
  claims_given k idle id src h e = cc
  claims_given k (holding i) id src h e = cc
  claims_given k (removed i) id src (clone, _) e = ground (arith, clone.given)
  claims_given k (obtained none own from gvk) id src h e = cc
  claims_given k (obtained (some i) own from gvk) id src h e = ground (arith, h.0.given)
  claims_given k (registered none own from gvk) id src h e =
      ground (arith, c.coherent.given gvk own)
  claims_given k (registered (some i) own from gvk) id src h e =
      ground (arith, h.0.given, c.coherent.given gvk own)
  claims_given k (inserted i) id src (clone, _) e = ground (arith, clone.given)

  holds-given :
      (k : ObjectSyncRef) (id : ℕ) (src : SourceRef)
      → holds s.registry id src k ≡ true
      → id < s.registry.next
  holds-given k id src h = elim (Bool-cases (claims (s.task k) id src)) [
    | inl claimed ↦ claims_given k (s.task k) id src (c.fine k) claimed
    | inr unclaimed ↦ elim (Option-cases (Dict.lookup k s.registry.instances)) [
      | inl absent ↦ ground (arith, c.explained k id src h)
      | inr (i, here) ↦ ground (arith, c.explained k id src h, c.coherent.registered k i here)
    ]
  ]

  pub holds-started :
      (gvk : GroupVersionKind) (k : ObjectSyncRef) (id : ℕ) (src : SourceRef)
      → holds (started gvk s.registry) id src k ≡ holds s.registry id src k
  unfolding started
  holds-started gvk k id src = ground (
    arith,
    holds-given k id src,
    is_registered_nothing src k,
    lookup-insert id s.registry.next [] s.registry.sources,
  )

  pub Frame-started :
      (gvk : GroupVersionKind) (k : ObjectSyncRef)
      → ((id : ℕ) → Dict.lookup gvk s.registry.resource_controllers ≡ some id → ¬ IsAlive s id)
      → Frame s k (started gvk s.registry)
  unfolding started
  Frame-started gvk k gone =
      let r = s.registry in
      record {
        instances = λ j other. refl;
        grows = omega arith;
        kinds = λ g id e given. ground (arith, lookup-insert g gvk r.next r.resource_controllers);
        alive = λ g id e lives. elim (Bool-cases (g == gvk)) [
          | inl same ↦ absurd (gone id (ground arith) lives)
          | inr other ↦ ground (arith, lookup-insert g gvk r.next r.resource_controllers)
        ];
        registrations = λ j id src other. holds-started gvk j id src;
      }
