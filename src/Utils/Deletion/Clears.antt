-- ===== src/Utils/Deletion/Clears.antt =====
-- With a server that deletes what has no finalizers, `delete_destinations` leaves no copy.
use mathlib.Core.Path.{subst}
use k8s_object_syncer.Base.{
  string_eq, nat_eq, ◌≡◌, ◌≢◌, refl, sym, ◌∙◌, ◌==◌, none, Option, List, [], ◌∷◌, All, Result, ok,
  inl, inr, arith, Bool-cases,
}
use k8s_object_syncer.Kube.Meta.{GroupVersionKind}
use k8s_object_syncer.Kube.Server.{Kube}
use k8s_object_syncer.Kube.Client.{Object, Env}
use k8s_object_syncer.Api.Types.{DestinationStatus}
use k8s_object_syncer.Errors.{ControllerError}
use k8s_object_syncer.Utils.Names.{NamespacedName, name_eq, key_of}
use k8s_object_syncer.Utils.Deletion.{gvk_of, delete_loop, delete_destinations}
use k8s_object_syncer.Utils.Deletion.Round.{
  IsReleasable, DeletesKind, Untouched, round, round-Untouched,
}

module _ (K : Kube) (view : K.World → NamespacedName → Option (Object K)) where
  abbrev AllReleasable : K.World → List DestinationStatus → Type 0
  AllReleasable w ds = All (λ d. IsReleasable K (key_of d) (view w (key_of d))) ds

  AllReleasable-round :
      (d : DestinationStatus) (ds : List DestinationStatus) (w w' : K.World)
      → view w' (key_of d) ≡ none
      → Untouched K view w d w'
      → AllReleasable w ds
      → AllReleasable w' ds
  AllReleasable-round d [] w w' gone others all = tt
  AllReleasable-round d (e ∷ ds) w w' gone others (h, all) = (
    elim (Bool-cases (key_of e == key_of d)) [
      | inl same ↦
          let p : key_of d ≡ key_of e = ground arith in
          subst (λ k. IsReleasable K k (view w' k)) p (rw gone tt)
      | inr other ↦ rw (others (key_of e) (ground arith)) h
    ],
    AllReleasable-round d ds w w' gone others all,
  )

  -- No copy is left at the given destinations, and nothing else has changed.
  abbrev pub Cleared : K.World → List DestinationStatus → K.World → Type 0
  Cleared w ds w' =
      All (λ d. view w' (key_of d) ≡ none) ds
      × ((j : NamespacedName) → All (λ d. j ≢ key_of d) ds → view w' j ≡ view w j)

  -- What the loop comes to: what is not there stays away.
  abbrev Clears :
      K.World
      → List DestinationStatus
      → List DestinationStatus
      → Result ControllerError (List DestinationStatus) × Env K
      → Type 0
  Clears w ds errors (r, t) =
      (r ≡ ok errors)
      × ((j : NamespacedName) → view w j ≡ none → view t.world j ≡ none)
      × Cleared w ds t.world

  module _ (gvk : GroupVersionKind) (deletes : DeletesKind K view gvk) where
    delete_loop-Clears :
        (ds errors : List DestinationStatus) (s : Env K)
        → All (λ d. gvk_of d ≡ gvk) ds
        → AllReleasable s.world ds
        → Clears s.world ds errors (delete_loop K ds errors s)
    unfolding delete_loop
    delete_loop-Clears [] errors s kinds releasable = (refl, λ j h. h, (tt, λ j apart. refl))
    delete_loop-Clears (d ∷ ds) errors s (kind, kinds) (h, releasable) =
        let s' = round K view d errors s in
        let (steps, gone, others) =
          round-Untouched K view d ds errors s (subst (DeletesKind K view) (sym kind) deletes) h in
        let (done, stays, (cleared, untouched)) =
          delete_loop-Clears ds errors s' kinds
            (AllReleasable-round d ds s.world s'.world gone others releasable) in
        subst (Clears s.world (d ∷ ds) errors) (sym steps) (
          done,
          λ j absent. stays j (elim (Bool-cases (j == key_of d)) [
            | inl same ↦
                let p : key_of d ≡ j = ground arith in subst (λ i. view s'.world i ≡ none) p gone
            | inr other ↦ others j (ground arith) ∙ absent
          ]),
          (
            (stays (key_of d) gone, cleared),
            λ j (other, apart). untouched j apart ∙ others j other,
          ),
        )

    -- If the server deletes objects without finalizers and there is no copy that has a finalizer
    -- but that of the program, then the deletion of copies of one kind succeeds with no remnants:
    -- afterwards no copy is there, and no other object of the kind has changed.
    pub delete_destinations-Cleared :
        (ds : List DestinationStatus) (s : Env K)
        → All (λ d. gvk_of d ≡ gvk) ds
        → All (λ d. IsReleasable K (key_of d) (view s.world (key_of d))) ds
        → ((delete_destinations K ds s).0 ≡ ok [])
          × Cleared s.world ds (delete_destinations K ds s).1.world
    unfolding delete_destinations
    delete_destinations-Cleared ds s kinds releasable =
        let (done, stays, cleared) = delete_loop-Clears ds [] s kinds releasable in (done, cleared)
