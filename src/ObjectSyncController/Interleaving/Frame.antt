-- ===== src/ObjectSyncController/Interleaving/Frame.antt =====
-- A step of one reconciliation leaves what the others rely on.
use mathlib.Core.Path.{subst}
use k8s_object_syncer.Base.{
  ℕ, ◌≤◌, ◌<◌, nat_eq, string_eq, true, false, ◌||◌, ◌==◌, ◌≡◌, refl, sym, ◌∙◌, Option, none, some,
  inl, inr, arith, Bool-cases,
}
use k8s_object_syncer.Base.Dict
use k8s_object_syncer.Kube.Meta.{GroupVersionKind, gvk_eq}
use k8s_object_syncer.Utils.Names.{SourceRef, ObjectSyncRef, name_eq}
use k8s_object_syncer.ObjectSyncController.Registry.{Registry, ObjectSyncInstance}
use k8s_object_syncer.ObjectSyncController.Registry.Coherence.{holds, Coherent}
use k8s_object_syncer.ObjectSyncController.Interleaving.{
  Phase, idle, holding, removed, obtained, registered, inserted, System, keeps, IsAlive, update,
}
use k8s_object_syncer.ObjectSyncController.Interleaving.Invariant.{
  IsClone, IsOptionalClone, Fine, matches, claims, IsConsistent,
}

-- What a step of the object's reconciliation leaves to those of other objects.
pub record Frame (s : System) (k : ObjectSyncRef) (r : Registry) : Type 0 where
  pub instances :
      (j : ObjectSyncRef)
      → (j == k) ≡ false
      → Dict.lookup j r.instances ≡ Dict.lookup j s.registry.instances
  pub grows : s.registry.next ≤ r.next
  pub kinds :
      (g : GroupVersionKind) (id : ℕ)
      → Dict.lookup g r.resource_controllers ≡ some id
      → id < s.registry.next
      → Dict.lookup g s.registry.resource_controllers ≡ some id
  pub alive :
      (g : GroupVersionKind) (id : ℕ)
      → Dict.lookup g s.registry.resource_controllers ≡ some id
      → IsAlive s id
      → Dict.lookup g r.resource_controllers ≡ some id
  pub registrations :
      (j : ObjectSyncRef) (id : ℕ) (src : SourceRef)
      → (j == k) ≡ false
      → holds r id src j ≡ holds s.registry id src j

-- What a step does for its own object, beside the frame.
pub record IsSound (s : System) (k : ObjectSyncRef) (r : Registry) (p : Phase) : Type 0 where
  pub coherent : Coherent r
  pub frame : Frame s k r
  pub fine : Fine r k p
  pub explained :
      (id : ℕ) (src : SourceRef)
      → holds r id src k ≡ true
      → (matches (Dict.lookup k r.instances) id src || claims p id src) ≡ true

module _ (s : System) (k : ObjectSyncRef) (r : Registry) (f : Frame s k r) where
  pub IsClone-Frame :
      (j : ObjectSyncRef) (i : ObjectSyncInstance) → IsClone s.registry j i → IsClone r j i
  IsClone-Frame j i c = record {
    own = c.own;
    given = ground (arith, f.grows, c.given);
    serves = λ g e. c.serves g (f.kinds g i.resource_controller e c.given);
  }

  pub IsOptionalClone-Frame :
      (j : ObjectSyncRef) (held : Option ObjectSyncInstance)
      → IsOptionalClone s.registry j held
      → IsOptionalClone r j held
  IsOptionalClone-Frame j none c = tt
  IsOptionalClone-Frame j (some i) c = IsClone-Frame j i c

  keeps_own :
      (held : Option ObjectSyncInstance) (id : ℕ) (src : SourceRef) (gvk : GroupVersionKind)
      → keeps (obtained held id src gvk) id ≡ true
  keeps_own held id src gvk = ground arith

  Fine-Frame :
      (j : ObjectSyncRef) (p : Phase)
      → (j == k) ≡ false
      → s.task j ≡ p
      → Fine s.registry j p
      → Fine r j p
  Fine-Frame j idle other e h = tt
  Fine-Frame j (holding i) other e h = f.instances j other ∙ h
  Fine-Frame j (removed i) other e (c, free) = (IsClone-Frame j i c, f.instances j other ∙ free)
  Fine-Frame j (obtained held id src gvk) other e (c, free, known, d) = (
    IsOptionalClone-Frame j held c,
    f.instances j other ∙ free,
    f.alive gvk id known (inr (j, rw e (keeps_own held id src gvk))),
    d,
  )
  Fine-Frame j (registered held id src gvk) other e (c, free, known, d, there) = (
    IsOptionalClone-Frame j held c,
    f.instances j other ∙ free,
    f.alive gvk id known (inr (j, rw e (keeps_own held id src gvk))),
    d,
    f.registrations j id src other ∙ there,
  )
  Fine-Frame j (inserted i) other e (c, d) =
      (IsClone-Frame j i c, λ x h. d x (sym (f.instances j other) ∙ h))

-- A step that is sound for its own object keeps everything consistent.
pub IsSound-IsConsistent :
    (s : System) (k : ObjectSyncRef) (r : Registry) (p : Phase)
    → IsConsistent s
    → IsSound s k r p
    → IsConsistent (record { registry = r; task = update k p s.task })
IsSound-IsConsistent s k r p c sound = record {
  coherent = sound.coherent;
  fine = λ j. elim (Bool-cases (j == k)) [
    | inl same ↦ let e : k ≡ j = ground arith in rw same (subst (λ x. Fine r x p) e sound.fine)
    | inr other ↦ rw other (Fine-Frame s k r sound.frame j (s.task j) other refl (c.fine j))
  ];
  explained = λ j id src h. elim (Bool-cases (j == k)) [
    | inl same ↦
        let e : j ≡ k = ground arith in
        let h' : holds r id src k ≡ true = subst (λ x. holds r id src x ≡ true) e h in
        rw same (
          subst (λ x. (matches (Dict.lookup x r.instances) id src || claims p id src) ≡ true)
            (sym e) (sound.explained id src h'))
    | inr other ↦
        let h' = sym (sound.frame.registrations j id src other) ∙ h in
        rw (other, sound.frame.instances j other) (c.explained j id src h')
  ];
}
