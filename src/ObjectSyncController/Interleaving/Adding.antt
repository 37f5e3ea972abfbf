-- ===== src/ObjectSyncController/Interleaving/Adding.antt =====
-- The steps of `add` are sound.
use mathlib.Core.Path.{subst}
use k8s_object_syncer.Base.{
  ℕ, nat_eq, string_eq, true, ◌≡◌, ◌≢◌, ◌⊎◌, refl, Option, none, some, arith,
}
use k8s_object_syncer.Base.Dict
use k8s_object_syncer.Base.Dict.{lookup-insert, lookup-remove}
use k8s_object_syncer.Kube.Meta.{GroupVersionKind, gvk_eq}
use k8s_object_syncer.Utils.Names.{SourceRef, ObjectSyncRef, name_eq}
use k8s_object_syncer.ObjectSyncController.Registry.{
  Registry, ObjectSyncInstance, started, register, place_instance, instance_of,
}
use k8s_object_syncer.ObjectSyncController.Registry.Coherence.{
  holds, Coherent, holds-register, started-Coherent,
}
use k8s_object_syncer.ObjectSyncController.Interleaving.{
  removed, obtained, registered, System, IsAlive, IsReady, IsTested, after_add,
}
use k8s_object_syncer.ObjectSyncController.Interleaving.Invariant.{
  IsClone, IsOptionalClone, Differs, Fine, matches, claims, IsConsistent,
}
use k8s_object_syncer.ObjectSyncController.Interleaving.Frame.{
  Frame, IsSound, IsClone-Frame, IsOptionalClone-Frame,
}
use k8s_object_syncer.ObjectSyncController.Interleaving.Frames.{
  Frame-register, Frame-place, Frame-started, holds-started,
}

register-Coherent :
    (id : ℕ) (src : SourceRef) (k : ObjectSyncRef) (r : Registry)
    → Coherent r
    → Coherent (register id src k r)
unfolding register
register-Coherent id src k r h = record {
  registered = λ j i e. ground (
    arith,
    h.registered j i,
    holds-register id i.resource_controller src i.resource_controller_handle.src k j r,
  );
  given = h.given;
  single = h.single;
  serves = h.serves;
}

place_instance-Coherent :
    (id : ℕ) (src : SourceRef) (k : ObjectSyncRef) (gvk : GroupVersionKind) (r : Registry)
    → Coherent r
    → Dict.lookup k r.instances ≡ none
    → Dict.lookup gvk r.resource_controllers ≡ some id
    → holds r id src k ≡ true
    → Coherent (place_instance id src k gvk r)
unfolding place_instance
place_instance-Coherent id src k gvk r h free known there =
    let j = instance_of id src k gvk in
    rw free (record {
      registered = λ l i e.
          ground (arith, h.registered l i, h.given gvk id, lookup-insert l k j r.instances);
      given = h.given;
      single = h.single;
      serves = λ g l i e f.
          ground (arith, h.serves g l i, h.single g gvk id, lookup-insert l k j r.instances);
    })

module _ (s : System) (c : IsConsistent s) (k : ObjectSyncRef) where
  abbrev r : Registry
  r = s.registry

  Differs-of_changed :
      (i : ObjectSyncInstance) (id : ℕ) (src : SourceRef) (gvk : GroupVersionKind) (r' : Registry)
      → IsClone r' k i
      → Dict.lookup gvk r'.resource_controllers ≡ some id
      → (i.gvk ≢ gvk) ⊎ (i.resource_controller_handle.src ≢ src)
      → Differs (some i) id src
  Differs-of_changed i id src gvk r' clone known changed = ground (arith, clone.serves gvk)

  -- `add` has a controller: the registry has changed by nothing but a controller that was started.
  pub obtained-IsSound :
      (held : Option ObjectSyncInstance) (id : ℕ) (src : SourceRef) (gvk : GroupVersionKind)
      (r' : Registry)
      → IsReady s k held
      → IsTested (obtained held id src gvk)
      → Coherent r'
      → Frame s k r'
      → (r'.instances ≡ r.instances)
      → ((id' : ℕ) (src' : SourceRef) → holds r' id' src' k ≡ holds r id' src' k)
      → Dict.lookup gvk r'.resource_controllers ≡ some id
      → IsSound s k r' (obtained held id src gvk)
  obtained-IsSound none id src gvk r' (at, free) tested coherent frame same regs known = record {
    coherent = coherent;
    frame = frame;
    fine = (tt, rw same free, known, tt);
    explained = λ id' src' h. ground (arith, at, free, c.explained k id' src', regs id' src');
  }
  obtained-IsSound (some i) id src gvk r' at changed coherent frame same regs known =
      let fine : Fine r k (removed i) = subst (Fine r k) at (c.fine k) in
      let clone = IsClone-Frame s k r' frame k i fine.0 in
      record {
        coherent = coherent;
        frame = frame;
        fine =
            (clone, rw same fine.1, known, Differs-of_changed i id src gvk r' clone known changed);
        explained =
            λ id' src' h. ground (arith, at, same, fine.1, c.explained k id' src', regs id' src');
      }

  pub launch-IsSound :
      (held : Option ObjectSyncInstance) (src : SourceRef) (gvk : GroupVersionKind)
      → IsReady s k held
      → IsTested (obtained held r.next src gvk)
      → ((id : ℕ) → Dict.lookup gvk r.resource_controllers ≡ some id → ¬ IsAlive s id)
      → IsSound s k (started gvk r) (obtained held r.next src gvk)
  unfolding started
  launch-IsSound held src gvk ready tested gone =
      obtained-IsSound held r.next src gvk (started gvk r) ready tested
        (started-Coherent gvk r c.coherent) (Frame-started s c gvk k gone) refl
        (λ id' src'. holds-started s c gvk k id' src')
        (ground (arith, lookup-insert gvk gvk r.next r.resource_controllers))

  pub enroll-IsSound :
      (held : Option ObjectSyncInstance) (id : ℕ) (src : SourceRef) (gvk : GroupVersionKind)
      → s.task k ≡ obtained held id src gvk
      → IsSound s k (register id src k r) (registered held id src gvk)
  unfolding register
  enroll-IsSound held id src gvk at =
      let (clone, free, known, differs) : Fine r k (obtained held id src gvk) =
        subst (Fine r k) at (c.fine k) in
      let frame = Frame-register s k id src in
      record {
        coherent = register-Coherent id src k r c.coherent;
        frame = frame;
        fine = (
          IsOptionalClone-Frame s k (register id src k r) frame k held clone,
          free,
          known,
          differs,
          ground (arith, holds-register id id src src k k r),
        );
        explained = λ id' src' h.
            ground (arith, at, free, c.explained k id' src', holds-register id id' src src' k k r);
      }

  -- The phase after `add` stands for what the clone stood for.
  after_add-claims :
      (held : Option ObjectSyncInstance) (id : ℕ) (src : SourceRef)
      → claims (after_add held) id src ≡ matches held id src
  after_add-claims none id src = refl
  after_add-claims (some i) id src = refl

  after_add-Fine :
      (held : Option ObjectSyncInstance) (r' : Registry) (j : ObjectSyncInstance)
      → IsOptionalClone r' k held
      → Dict.lookup k r'.instances ≡ some j
      → Differs held j.resource_controller j.resource_controller_handle.src
      → Fine r' k (after_add held)
  after_add-Fine none r' j clone here differs = tt
  after_add-Fine (some i) r' j clone here differs = (clone, λ x e. ground (arith, here, differs))

  place_instance_lem :
      (id : ℕ) (src : SourceRef) (gvk : GroupVersionKind)
      → Dict.lookup k r.instances ≡ none
      → (Dict.lookup k (place_instance id src k gvk r).instances ≡ some (instance_of id src k gvk))
        × ((id' : ℕ) (src' : SourceRef)
            → holds (place_instance id src k gvk r) id' src' k ≡ holds r id' src' k)
  unfolding place_instance
  place_instance_lem id src gvk free =
      rw free
        (ground (arith, lookup-insert k k (instance_of id src k gvk) r.instances), λ id' src'. refl)

  pub place-IsSound :
      (held : Option ObjectSyncInstance) (id : ℕ) (src : SourceRef) (gvk : GroupVersionKind)
      → s.task k ≡ registered held id src gvk
      → IsSound s k (place_instance id src k gvk r) (after_add held)
  place-IsSound held id src gvk at =
      let (clone, free, known, differs, there) : Fine r k (registered held id src gvk) =
        subst (Fine r k) at (c.fine k) in
      let frame = Frame-place s k id src gvk free in
      let r' = place_instance id src k gvk r in
      let j = instance_of id src k gvk in
      let (here, regs) = place_instance_lem id src gvk free in
      record {
        coherent = place_instance-Coherent id src k gvk r c.coherent free known there;
        frame = frame;
        fine =
            after_add-Fine held r' j (IsOptionalClone-Frame s k r' frame k held clone) here differs;
        explained = λ id' src' h. ground (
          arith,
          at,
          free,
          here,
          c.explained k id' src',
          regs id' src',
          after_add-claims held id' src',
        );
      }
