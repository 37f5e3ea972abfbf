-- ===== src/ObjectSyncController/Interleaving/Runs.antt =====
-- The reconciliations of Reconcile, one after another, are among the interleavings.
use mathlib.Core.Path.{subst, ap, fun_ext}
use k8s_object_syncer.Base.{
  ℕ, nat_eq, string_eq, true, ◌==◌, ◌≡◌, ◌≢◌, ◌⊎◌, Option, none, some, inl, inr, arith,
  Option-cases, Bool-cases,
}
use k8s_object_syncer.Base.Dict
use k8s_object_syncer.Base.Dict.{Dict}
use k8s_object_syncer.Kube.Meta.{GroupVersionKind, gvk_eq}
use k8s_object_syncer.Utils.Names.{SourceRef, ObjectSyncRef, name_eq}
use k8s_object_syncer.ObjectSyncController.Registry.{
  Registry, ObjectSyncInstance, is_alive, upgrade, started, register, drop_instance, remove,
  place_instance, add,
}
use k8s_object_syncer.ObjectSyncController.Registry.Coherence.{
  obtain_fresh, obtain_old, upgrade-lookup,
}
use k8s_object_syncer.ObjectSyncController.Registry.Moves.{moved}
use k8s_object_syncer.ObjectSyncController.Interleaving.{
  Phase, idle, holding, removed, obtained, registered, inserted, System, IsAlive, IsReady, IsTested,
  after_add, update, Move, look, take, give_up, reuse, launch, enroll, place, discard,
  delete_instance, Step, turn, Reach, later,
}

-- Steps of the one object after another.
pub data Steps (IsAllowed : Phase → Type 0) (s : System) : System → Type 0 where
  none_yet : Steps IsAllowed s s
  more : {t u : System} → Steps IsAllowed s t → Step IsAllowed t u → Steps IsAllowed s u

pub Reach-Steps :
    {IsAllowed : Phase → Type 0} {s t : System}
    → Reach IsAllowed s
    → Steps IsAllowed s t
    → Reach IsAllowed t
Reach-Steps reach none_yet = reach
Reach-Steps reach (more first step) = later (Reach-Steps reach first) step

-- No reconciliation is under way.
abbrev pub quiet : Registry → System
quiet r = record { registry = r; task = λ _. idle }

update_same : (k : ObjectSyncRef) (p : Phase) (task : ObjectSyncRef → Phase) → update k p task k ≡ p
update_same k p task = ground arith

update_again :
    (k : ObjectSyncRef) (p q : Phase) (task : ObjectSyncRef → Phase)
    → update k q (update k p task) ≡ update k q task
update_again k p q task = fun_ext (λ j. ground arith)

update_idle : (k : ObjectSyncRef) → update k idle (λ _. idle) ≡ (λ _. idle)
update_idle k = fun_ext (λ j. ground arith)

-- The object's reconciliation at a phase, and no other.
abbrev pub alone : ObjectSyncRef → Phase → Registry → System
alone k p r = record { registry = r; task = update k p (λ _. idle) }

pub at_idle : (k : ObjectSyncRef) (r : Registry) → alone k idle r ≡ quiet r
at_idle k r = ap (λ t. record { registry = r; task = t }) (update_idle k)

IsAlive-alone :
    (held : Option ObjectSyncInstance) (src : SourceRef) (k : ObjectSyncRef)
    (gvk : GroupVersionKind) (p : Phase) (r : Registry) (id : ℕ)
    → IsReady (alone k p r) k held
    → (is_alive held r id ≡ true → IsAlive (alone k p r) id)
      × (IsAlive (alone k p r) id → is_alive held r id ≡ true)
unfolding is_alive
IsAlive-alone none src k gvk p r id ready =
    (λ h. inl h, λ h. elim h [ inl there ↦ there | inr (j, kept) ↦ ground (arith, ready) ])
IsAlive-alone (some i) src k gvk p r id ready = (
  λ h. elim (Bool-cases (i.resource_controller == id)) [
    | inl own ↦ inr (k, ground (arith, ready))
    | inr other ↦ inl (ground arith)
  ],
  λ h. elim h [ inl there ↦ ground arith | inr (j, kept) ↦ ground (arith, ready) ],
)

not_alive :
    (held : Option ObjectSyncInstance) (gvk : GroupVersionKind) (r : Registry) (id : ℕ)
    → upgrade held gvk r ≡ none
    → Dict.lookup gvk r.resource_controllers ≡ some id
    → is_alive held r id ≢ true
unfolding upgrade
not_alive held gvk r id fresh known lives = ground arith

after_add-IsTested : (held : Option ObjectSyncInstance) → IsTested (after_add held)
after_add-IsTested none = tt
after_add-IsTested (some i) = tt

module _ (s : System) (k : ObjectSyncRef) where
  -- The object's reconciliation gets to the phase, while the others rest.
  abbrev GetsTo : Phase → Registry → Type 0
  GetsTo p r = Steps IsTested s (alone k p r)

  step :
      (p : Phase) {q : Phase} {r r' : Registry}
      → GetsTo p r
      → Move (alone k p r) k r' q
      → IsTested q
      → GetsTo q r'
  step p {q} {r} {r'} steps move tested =
      subst (λ t. Steps IsTested s (record { registry = r'; task = t }))
        (update_again k p q (λ _. idle)) (more steps (turn k move tested))

  at : (p : Phase) (r : Registry) → (alone k p r).task k ≡ p
  at p r = update_same k p (λ _. idle)

  obtained-GetsTo :
      (held : Option ObjectSyncInstance) (id : ℕ) (src : SourceRef) (gvk : GroupVersionKind)
      (r : Registry)
      → GetsTo (obtained held id src gvk) r
      → GetsTo (after_add held) (place_instance id src k gvk (register id src k r))
  obtained-GetsTo held id src gvk r steps =
      let before = obtained held id src gvk in
      let after = registered held id src gvk in
      step after (step before steps (enroll held id src gvk (at before r)) tt)
        (place held id src gvk (at after (register id src k r))) (after_add-IsTested held)

  -- `add` is steps of the object's reconciliation.
  pub add-GetsTo :
      (held : Option ObjectSyncInstance) (src : SourceRef) (gvk : GroupVersionKind) (p : Phase)
      (r : Registry)
      → IsReady (alone k p r) k held
      → ((id : ℕ) → IsTested (obtained held id src gvk))
      → GetsTo p r
      → GetsTo (after_add held) (add held src k gvk r)
  unfolding add upgrade
  add-GetsTo held src gvk p r ready tested steps = elim (Option-cases (upgrade held gvk r)) [
    | inl fresh ↦ rw (obtain_fresh held gvk r fresh) (
        obtained-GetsTo held r.next src gvk (started gvk r) (
          step p steps
            (launch held src gvk ready (λ n known lives.
              not_alive held gvk r n fresh known
                ((IsAlive-alone held src k gvk p r n ready).1 lives)))
            (tested r.next)))
    | inr (id, known) ↦
        let lives = (IsAlive-alone held src k gvk p r id ready).0 (ground arith) in
        let known' = upgrade-lookup held gvk r id known in
        rw (obtain_old held gvk r id known) (
          obtained-GetsTo held id src gvk r
            (step p steps (reuse held id src gvk ready known' lives) (tested id)))
  ]

  -- A move without the last step, where the copies cannot be deleted.
  pub taken-GetsTo :
      (i : ObjectSyncInstance) (r : Registry)
      → Dict.lookup k r.instances ≡ some i
      → GetsTo idle r
      → GetsTo (removed i) (remove k r).1
  taken-GetsTo i r here steps =
      step (holding i) (step idle steps (look i (at idle r) here) tt) (take i (at (holding i) r)) tt

  pub given_up-GetsTo :
      (i : ObjectSyncInstance) (r : Registry)
      → Dict.lookup k r.instances ≡ some i
      → GetsTo idle r
      → GetsTo idle (drop_instance i (remove k r).1)
  given_up-GetsTo i r here steps =
      step (removed i) (taken-GetsTo i r here steps) (give_up i (at (removed i) (remove k r).1)) tt

  pub moved-GetsTo :
      (i : ObjectSyncInstance) (src : SourceRef) (gvk : GroupVersionKind) (r : Registry)
      → Dict.lookup k r.instances ≡ some i
      → (i.gvk ≢ gvk) ⊎ (i.resource_controller_handle.src ≢ src)
      → GetsTo idle r
      → GetsTo idle (moved i src k gvk r)
  moved-GetsTo i src gvk r here differs steps =
      let r0 = (remove k r).1 in
      step (inserted i)
        (add-GetsTo (some i) src gvk (removed i) r0 (at (removed i) r0) (λ _. differs)
          (taken-GetsTo i r here steps))
        (discard i (at (inserted i) (add (some i) src k gvk r0))) tt

  pub deleted-GetsTo :
      (i : ObjectSyncInstance) (r : Registry)
      → Dict.lookup k r.instances ≡ some i
      → GetsTo idle r
      → GetsTo idle (drop_instance i (remove k r).1)
  deleted-GetsTo i r here steps = step idle steps (delete_instance i (at idle r) here) tt

  -- The first `add` of an object.
  pub added-GetsTo :
      (src : SourceRef) (gvk : GroupVersionKind) (r : Registry)
      → Dict.lookup k r.instances ≡ none
      → GetsTo idle r
      → GetsTo idle (add none src k gvk r)
  added-GetsTo src gvk r free steps =
      add-GetsTo none src gvk idle r (at idle r, free) (λ _. tt) steps
