-- ===== src/ResourceController/Source/Plan.antt =====
-- What the first loop of `reconcile_source` makes of the expected and the tracked destinations.
pub mod Again
use mathlib.Core.Option.{get_or}
use mathlib.Core.List.{append-nil, append_assoc}
use k8s_object_syncer.Base.{
  ◌≡◌, ◌↔◌, false, In, In-retain, refl, sym, ◌∙◌, ◌⊎◌, inl, inr, true, not, none, some, List, [],
  ◌∷◌, ◌++◌, any, find, retain, Any, arith, string_eq, Bool, Option-cases,
}
use k8s_object_syncer.Kube.Meta.{GroupVersionKind}
use k8s_object_syncer.Kube.Server.{Kube}
use k8s_object_syncer.Api.Types.{DestinationStatus, ObjectSync, strategy_eq}
use k8s_object_syncer.Api.Destination.{status_strategy}
use k8s_object_syncer.Api.Status.{status_destinations}
use k8s_object_syncer.ResourceController.Expected.{Target}
use k8s_object_syncer.ResourceController.Upsert.{is_same_destination}
use k8s_object_syncer.ResourceController.Source.{
  Merge, fresh_status, carry_versions, merge_target, merge_targets, plan_destinations,
}

module _ (gvk : GroupVersionKind) where
  abbrev same : Target → DestinationStatus → Bool
  same t d = is_same_destination d (fresh_status gvk t)

  -- The tracked destination is one of the expected ones.
  abbrev pub is_expected : List Target → DestinationStatus → Bool
  is_expected ts d = any (λ t. same t d) ts

  retain_of_absent :
      (t : Target) (l : List DestinationStatus)
      → find (same t) l ≡ none
      → retain (λ d. not (same t d)) l ≡ l
  retain_of_absent t [] h = refl
  retain_of_absent t (d ∷ l) h = ground (arith, retain_of_absent t l)

  stale-merge_target :
      (t : Target) (m : Merge) → (merge_target gvk t m).stale ≡ retain (λ d. not (same t d)) m.stale
  unfolding merge_target
  stale-merge_target t m = ground (arith, retain_of_absent t m.stale)

  retain-retain :
      (t : Target) (ts : List Target) (l : List DestinationStatus)
      → retain (λ d. not (is_expected ts d)) (retain (λ d. not (same t d)) l)
        ≡ retain (λ d. not (is_expected (t ∷ ts) d)) l
  retain-retain t ts [] = refl
  retain-retain t ts (d ∷ l) = ground (arith, retain-retain t ts l)

  retain_all : (l : List DestinationStatus) → retain (λ d. not (is_expected [] d)) l ≡ l
  retain_all [] = refl
  retain_all (d ∷ l) = rw (retain_all l)

  stale-merge_targets :
      (ts : List Target) (m : Merge)
      → (merge_targets gvk ts m).stale ≡ retain (λ d. not (is_expected ts d)) m.stale
  unfolding merge_targets
  stale-merge_targets [] m = sym (retain_all m.stale)
  stale-merge_targets (t ∷ ts) m =
      stale-merge_targets ts (merge_target gvk t m)
      ∙ rw (stale-merge_target t m) (retain-retain t ts m.stale)

  -- The status that is tracked for a target: its revisions are unknown, or they come from a
  -- status that was tracked before for the same copy with the same strategy.
  abbrev pub Carries : List DestinationStatus → Target → DestinationStatus → Type 0
  Carries old t e =
      (e ≡ fresh_status gvk t)
      ⊎ Any
          (λ known.
            (same t known ≡ true)
            × (status_strategy known ≡ status_strategy (fresh_status gvk t))
            × (e ≡ record (fresh_status gvk t) {
              source_version = known.source_version;
              synced_version = known.synced_version;
            }))
          old

  -- One tracked status for each target, in the order of the targets.
  abbrev pub Tracks : List DestinationStatus → List Target → List DestinationStatus → Type 0
  Tracks old [] [] = Unit
  Tracks old (t ∷ ts) (e ∷ es) = Carries old t e × Tracks old ts es
  Tracks old _ _ = ⊥

  Carries-found :
      (t : Target) (old : List DestinationStatus) (known : DestinationStatus)
      → find (same t) old ≡ some known
      → Carries old t (carry_versions known (fresh_status gvk t))
  unfolding carry_versions
  Carries-found t [] known h = cc
  Carries-found t (d ∷ old) known h = ground (arith, Carries-found t old known)

  Carries-retain :
      (t u : Target) (old : List DestinationStatus) (e : DestinationStatus)
      → Carries (retain (λ d. not (same t d)) old) u e
      → Carries old u e
  Carries-retain t u [] e h = h
  Carries-retain t u (d ∷ old) e h = ground (arith, Carries-retain t u old e)

  Tracks-retain :
      (t : Target) (ts : List Target) (old es : List DestinationStatus)
      → Tracks (retain (λ d. not (same t d)) old) ts es
      → Tracks old ts es
  Tracks-retain t [] old [] h = h
  Tracks-retain t (u ∷ ts) old (e ∷ es) (c, h) =
      (Carries-retain t u old e c, Tracks-retain t ts old es h)
  Tracks-retain t [] old (e ∷ es) h = h
  Tracks-retain t (u ∷ ts) old [] h = h

  entry : Target → List DestinationStatus → DestinationStatus
  entry t stale = elim (find (same t) stale) [
    | none ↦ fresh_status gvk t
    | some known ↦ carry_versions known (fresh_status gvk t)
  ]

  planned : List Target → List DestinationStatus → List DestinationStatus
  planned [] stale = []
  planned (t ∷ ts) stale = entry t stale ∷ planned ts (retain (λ d. not (same t d)) stale)

  expected-merge_target :
      (t : Target) (m : Merge)
      → (merge_target gvk t m).expected ≡ m.expected ++ entry t m.stale ∷ []
  unfolding merge_target entry
  expected-merge_target t m = ground arith

  expected-merge_targets :
      (ts : List Target) (m : Merge)
      → (merge_targets gvk ts m).expected ≡ m.expected ++ planned ts m.stale
  unfolding merge_targets planned
  expected-merge_targets [] m = sym (append-nil m.expected)
  expected-merge_targets (t ∷ ts) m =
      expected-merge_targets ts (merge_target gvk t m)
      ∙ rw (expected-merge_target t m, stale-merge_target t m) (append_assoc m.expected _ _)

  entry-Carries : (t : Target) (stale : List DestinationStatus) → Carries stale t (entry t stale)
  unfolding entry
  entry-Carries t stale = elim (Option-cases (find (same t) stale)) [
    | inl absent ↦ ground arith
    | inr (known, found) ↦ ground (arith, Carries-found t stale known)
  ]

  planned-Tracks :
      (ts : List Target) (stale : List DestinationStatus) → Tracks stale ts (planned ts stale)
  unfolding planned
  planned-Tracks [] stale = tt
  planned-Tracks (t ∷ ts) stale = (
    entry-Carries t stale,
    Tracks-retain t ts stale _ (planned-Tracks ts (retain (λ d. not (same t d)) stale)),
  )

-- The destination is the copy for the target, whatever its version and its strategy are.
abbrev pub AsksFor : GroupVersionKind → DestinationStatus → Target → Type 0
AsksFor gvk d t =
    (d.name ≡ t.name) × (d.namespace ≡ t.namespace) × (d.group ≡ gvk.group) × (d.kind ≡ gvk.kind)

module _ (gvk : GroupVersionKind) where
  is_expected_iff :
      (d : DestinationStatus) (ts : List Target)
      → (is_expected gvk ts d ≡ true) ↔ Any (AsksFor gvk d) ts
  unfolding is_same_destination fresh_status
  is_expected_iff d [] = ground arith
  is_expected_iff d (t ∷ ts) = ground (arith, is_expected_iff d ts)

  In-unexpected :
      (ts : List Target) (d : DestinationStatus) (l : List DestinationStatus)
      → In d (retain (λ x. not (is_expected gvk ts x)) l)
        ↔ (In d l × (is_expected gvk ts d ≡ false))
  In-unexpected ts d l = ground (arith, In-retain (λ x. not (is_expected gvk ts x)) d l)

module _ (gvk : GroupVersionKind) (obj : ObjectSync) (ts : List Target) where
  abbrev old : List DestinationStatus
  old = get_or (status_destinations obj) []

  stale_retain :
      (K : Kube)
      → (plan_destinations K gvk obj ts).stale ≡ retain (λ d. not (is_expected gvk ts d)) old
  unfolding plan_destinations
  stale_retain K = stale-merge_targets gvk ts _

  -- The stale destinations are those tracked ones that no expected target asks for by its
  -- namespace and name, or that are of another group or kind than the source.
  pub plan_destinations-stale :
      (K : Kube) (d : DestinationStatus)
      → In d (plan_destinations K gvk obj ts).stale ↔ (In d old × ¬ Any (AsksFor gvk d) ts)
  plan_destinations-stale K d =
      rw (stale_retain K) (ground (arith, In-unexpected gvk ts d old, is_expected_iff gvk d ts))

  -- The expected destinations are one for each target, in order. Its revisions are unknown, or are
  -- those tracked before for the same copy under the same strategy.
  pub plan_destinations-Tracks :
      (K : Kube) → Tracks gvk old ts (plan_destinations K gvk obj ts).expected
  unfolding plan_destinations
  plan_destinations-Tracks K = rw (expected-merge_targets gvk ts _) (planned-Tracks gvk ts old)
