-- ===== src/ObjectSyncController/Interleaving/Moves.antt =====
-- Each step of a reconciliation is sound.
use mathlib.Core.Path.{subst}
use k8s_object_syncer.Base.{ℕ, nat_eq, string_eq, true, ◌||◌, ◌≡◌, refl, some, arith}
use k8s_object_syncer.Base.Dict
use k8s_object_syncer.Base.Dict.{lookup-insert, lookup-remove}
use k8s_object_syncer.Kube.Meta.{gvk_eq}
use k8s_object_syncer.Utils.Names.{SourceRef, ObjectSyncRef, name_eq}
use k8s_object_syncer.ObjectSyncController.Registry.{
  Registry, ObjectSyncInstance, drop_instance, remove,
}
use k8s_object_syncer.ObjectSyncController.Registry.Coherence.{
  Coherent, holds-drop_instance, remove-Coherent, drop_instance-Coherent,
}
use k8s_object_syncer.ObjectSyncController.Registry.Moves.{remove_free}
use k8s_object_syncer.ObjectSyncController.Interleaving.{
  Phase, idle, holding, removed, inserted, System, IsTested, Move, look, leave, take, give_up,
  reuse, launch, enroll, place, discard, delete_instance,
}
use k8s_object_syncer.ObjectSyncController.Interleaving.Invariant.{
  IsClone, Differs, Fine, matches, claims, IsConsistent,
}
use k8s_object_syncer.ObjectSyncController.Interleaving.Frame.{IsSound, IsClone-Frame}
use k8s_object_syncer.ObjectSyncController.Interleaving.Frames.{
  Frame-refl, Frame-remove, Frame-drop_instance,
}
use k8s_object_syncer.ObjectSyncController.Interleaving.Adding.{
  obtained-IsSound, launch-IsSound, enroll-IsSound, place-IsSound,
}

-- The last reference to a clone goes, which stands for no instance of the map.
drop_clone-Coherent :
    (k : ObjectSyncRef) (i : ObjectSyncInstance) (r : Registry)
    → Coherent r
    → i.resource_controller_handle.crd ≡ k
    → ((j : ObjectSyncInstance)
        → Dict.lookup k r.instances ≡ some j
        → Differs (some i) j.resource_controller j.resource_controller_handle.src)
    → Coherent (drop_instance i r)
drop_clone-Coherent k i r h own other =
    drop_instance-Coherent i r h (λ j e. ground (arith, other j))

module _ (s : System) (c : IsConsistent s) (k : ObjectSyncRef) where
  abbrev r : Registry
  r = s.registry

  -- The clone of an instance of the map.
  instance-IsClone : (i : ObjectSyncInstance) → Dict.lookup k r.instances ≡ some i → IsClone r k i
  instance-IsClone i here = record {
    own = (c.coherent.registered k i here).0;
    given = (c.coherent.registered k i here).2;
    serves = λ g e. c.coherent.serves g k i e here;
  }

  -- The registry stays, and the phase changes to one that relies and stands for as much.
  unchanged :
      (p : Phase)
      → Fine r k p
      → ((id : ℕ) (src : SourceRef)
          → claims (s.task k) id src ≡ true
          → (matches (Dict.lookup k r.instances) id src || claims p id src) ≡ true)
      → IsSound s k r p
  unchanged p fine more = record {
    coherent = c.coherent;
    frame = Frame-refl s k;
    fine = fine;
    explained = λ id src h. ground (arith, c.explained k id src h, more id src);
  }

  look-IsSound :
      (i : ObjectSyncInstance)
      → s.task k ≡ idle
      → Dict.lookup k r.instances ≡ some i
      → IsSound s k r (holding i)
  look-IsSound i at here = unchanged (holding i) here (λ id src h. ground arith)

  leave-IsSound : (i : ObjectSyncInstance) → s.task k ≡ holding i → IsSound s k r idle
  leave-IsSound i at = unchanged idle tt (λ id src h. ground arith)

  take-IsSound :
      (i : ObjectSyncInstance) → s.task k ≡ holding i → IsSound s k (remove k r).1 (removed i)
  unfolding remove
  take-IsSound i at =
      let here : Dict.lookup k r.instances ≡ some i = subst (Fine r k) at (c.fine k) in
      let free = remove_free k r in
      record {
        coherent = remove-Coherent k r c.coherent;
        frame = Frame-remove s k;
        fine = (
          IsClone-Frame s k (remove k r).1 (Frame-remove s k) k i (instance-IsClone i here),
          free,
        );
        explained = λ id src h. ground (arith, free, here, at, c.explained k id src h);
      }

  -- The last clone of an instance is dropped that no longer stands in the map.
  drop-IsSound :
      (i : ObjectSyncInstance) (p : Phase)
      → s.task k ≡ p
      → IsClone r k i
      → ((j : ObjectSyncInstance)
          → Dict.lookup k r.instances ≡ some j
          → Differs (some i) j.resource_controller j.resource_controller_handle.src)
      → ((id : ℕ) (src : SourceRef) → claims p id src ≡ matches (some i) id src)
      → IsSound s k (drop_instance i r) idle
  unfolding drop_instance
  drop-IsSound i p at clone other stands = record {
    coherent = drop_clone-Coherent k i r c.coherent clone.own other;
    frame = Frame-drop_instance s k i r (Frame-refl s k) clone.own;
    fine = tt;
    explained = λ id src h. ground (
      arith,
      at,
      clone.own,
      stands id src,
      c.explained k id src,
      holds-drop_instance i id src k r,
    );
  }

  give_up-IsSound :
      (i : ObjectSyncInstance) → s.task k ≡ removed i → IsSound s k (drop_instance i r) idle
  give_up-IsSound i at =
      let fine : Fine r k (removed i) = subst (Fine r k) at (c.fine k) in
      drop-IsSound i (removed i) at fine.0 (λ j e. ground (arith, fine.1)) (λ id src. refl)

  delete-IsSound :
      (i : ObjectSyncInstance)
      → s.task k ≡ idle
      → Dict.lookup k r.instances ≡ some i
      → IsSound s k (drop_instance i (remove k r).1) idle
  unfolding drop_instance remove
  delete-IsSound i at here =
      let r0 = (remove k r).1 in
      let free = remove_free k r in
      let clone = instance-IsClone i here in
      record {
        coherent =
            drop_clone-Coherent k i r0 (remove-Coherent k r c.coherent) clone.own
              (λ j e. ground (arith, free));
        frame = Frame-drop_instance s k i r0 (Frame-remove s k) clone.own;
        fine = tt;
        explained = λ id src h.
            ground
              (arith, at, here, clone.own, c.explained k id src, holds-drop_instance i id src k r0);
      }

  discard-IsSound :
      (i : ObjectSyncInstance) → s.task k ≡ inserted i → IsSound s k (drop_instance i r) idle
  discard-IsSound i at =
      let fine : Fine r k (inserted i) = subst (Fine r k) at (c.fine k) in
      drop-IsSound i (inserted i) at fine.0 fine.1 (λ id src. refl)

  -- Every step is sound that passes the test of the kind and the source.
  pub Move-IsSound : {r' : Registry} {p : Phase} → Move s k r' p → IsTested p → IsSound s k r' p
  Move-IsSound (look i at here) tested = look-IsSound i at here
  Move-IsSound (leave i at) tested = leave-IsSound i at
  Move-IsSound (take i at) tested = take-IsSound i at
  Move-IsSound (give_up i at) tested = give_up-IsSound i at
  Move-IsSound (reuse held id src gvk ready known lives) tested =
      obtained-IsSound s c k held id src gvk r ready tested c.coherent (Frame-refl s k) refl
        (λ id' src'. refl) known
  Move-IsSound (launch held src gvk ready gone) tested =
      launch-IsSound s c k held src gvk ready tested gone
  Move-IsSound (enroll held id src gvk at) tested = enroll-IsSound s c k held id src gvk at
  Move-IsSound (place held id src gvk at) tested = place-IsSound s c k held id src gvk at
  Move-IsSound (discard i at) tested = discard-IsSound i at
  Move-IsSound (delete_instance i at here) tested = delete-IsSound i at here
