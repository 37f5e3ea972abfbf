-- ===== src/ResourceController/Upsert/Outcome.antt =====
-- How `upsert_destinations` leaves each copy's status, and what its counts say.
use k8s_object_syncer.Base.{
  String, ℕ, zero, suc, ◌+◌, ◌≤◌, ◌≡◌, refl, ◌⊎◌, inl, inr, true, false, Option, none, some, List,
  [], ◌∷◌, Returns, Returns-bind, Returns-map, All, arith, Bool-cases,
}
use k8s_object_syncer.Kube.Meta.{GroupVersionKind}
use k8s_object_syncer.Kube.Server.{Kube, Api}
use k8s_object_syncer.Utils.Names.{finalizer_name}
use k8s_object_syncer.Utils.Finalizers.{remove_finalizer}
use k8s_object_syncer.Kube.Client.{Object, Env}
use k8s_object_syncer.Api.Types.{DestinationStatus, ObjectRevision}
use k8s_object_syncer.ResourceController.Template.{source_template, destination_template}
use k8s_object_syncer.Api.Destination.{revision_of}
use k8s_object_syncer.ResourceController.Upsert.{
  Progress, Upserted, Turn, namespaced_api, seen_progress, written_progress, is_remnant,
  release_deleted, update_existing, attempt_once, attempt_loop, retry_attempts, upsert_loop,
  upsert_destinations, expected_success, is_same_destination,
}

module _ (src : ObjectRevision) where
  -- The three ways in which a destination leaves its loop: it failed and nothing is noted, it
  -- was up to date already, or it was written, and both revisions are noted.
  abbrev pub Outcome : DestinationStatus → Progress → DestinationStatus → Progress → Type 0
  Outcome d p d' p' =
      (d' ≡ d) × (p' ≡ p)
      ⊎ (d' ≡ d) × (d.source_version ≡ some src) × (p' ≡ seen_progress p)
      ⊎ (d' ≡ record d { synced_version = d'.synced_version; source_version = some src })
        × (p' ≡ written_progress p)

  abbrev TurnOutcome : DestinationStatus → Progress → Turn → Type 0
  TurnOutcome d p none = Unit
  TurnOutcome d p (some (d', p')) = Outcome d p d' p'

module _ (K : Kube) (gvk : GroupVersionKind) (src : ObjectRevision) where
  update_existing_outcome :
      (template : Object K) (d : DestinationStatus) (p : Progress) (current : Object K) (s : Env K)
      → Returns (TurnOutcome src d p) (update_existing K gvk src template d p current s).0
  unfolding update_existing
  update_existing_outcome template d p current s = ground arith

  remove_finalizer-Returns :
      (api : Api) (o : Object K) (f : String) (s : Env K)
      → Returns (λ _. Unit {0}) (remove_finalizer K api o f s).0
  unfolding remove_finalizer
  remove_finalizer-Returns api o f s = ground arith

  release_deleted-Returns :
      (d : DestinationStatus) (current : Object K) (s : Env K)
      → Returns (λ _. Unit {0}) (release_deleted K gvk src d current s).0
  unfolding release_deleted
  release_deleted-Returns d current s =
      ground (
        arith,
        remove_finalizer-Returns (namespaced_api K gvk d.namespace) current finalizer_name s,
      )

  attempt_once_outcome :
      (template : Object K) (d : DestinationStatus) (p : Progress) (s : Env K)
      → Returns (TurnOutcome src d p) (attempt_once K gvk src template d p s).0
  unfolding attempt_once
  attempt_once_outcome template d p s =
      grind (arith, release_deleted-Returns, update_existing_outcome)

  attempt_loop-Outcome :
      (n : ℕ) (template : Object K) (d : DestinationStatus) (p : Progress) (s : Env K)
      → Returns (λ (d', p'). Outcome src d p d' p') (attempt_loop K gvk src n template d p s).0
  unfolding attempt_loop
  attempt_loop-Outcome zero template d p s = ground arith
  attempt_loop-Outcome (suc n) template d p s = ground (
    arith,
    attempt_once_outcome template d p s,
    attempt_loop-Outcome n template d p (attempt_once K gvk src template d p s).1,
  )

-- The status of a destination, written at some revision of the copy.
abbrev rewritten : ObjectRevision → DestinationStatus → Option ObjectRevision → DestinationStatus
rewritten src d synced = record d { synced_version = synced; source_version = some src }

is_remnant-rewritten :
    (src : ObjectRevision) (remnants : List DestinationStatus) (d : DestinationStatus)
    (synced : Option ObjectRevision)
    → is_remnant remnants (rewritten src d synced) ≡ is_remnant remnants d
unfolding is_same_destination
is_remnant-rewritten src [] d synced = refl
is_remnant-rewritten src (v ∷ remnants) d synced =
    ground (arith, is_remnant-rewritten src remnants d synced)

-- What the loop has done to a destination: nothing, or it noted both revisions.
abbrev pub Treated :
    ObjectRevision → List DestinationStatus → DestinationStatus → DestinationStatus → Type 0
Treated src remnants d d' =
    (d' ≡ d) ⊎ (is_remnant remnants d ≡ false) × (d' ≡ rewritten src d d'.synced_version)

-- The two lists are as long, and related element by element.
abbrev pub Pointwise : {A : Type 0} → (A → A → Type 0) → List A → List A → Type 0
Pointwise R [] [] = Unit
Pointwise R (x ∷ xs) (y ∷ ys) = R x y × Pointwise R xs ys
Pointwise R _ _ = ⊥

-- A destination that is not a remnant is noted as written from the revision of the source.
abbrev pub Current : ObjectRevision → List DestinationStatus → DestinationStatus → Type 0
Current src remnants d = (is_remnant remnants d ≡ true) ⊎ (d.source_version ≡ some src)

-- The facts about the whole loop, from the counters before it to those after it.
record LoopFacts (src : ObjectRevision) (remnants ds : List DestinationStatus) (p : Progress)
    (ds' : List DestinationStatus) (p' : Progress) : Type 0 where
  bound : p'.observed_success ≤ p.observed_success + expected_success remnants ds
  complete :
      p'.observed_success ≡ p.observed_success + expected_success remnants ds
      → All (Current src remnants) ds'
  treated : Pointwise (Treated src remnants) ds ds'
  unchanged : p'.changed ≡ false → (ds' ≡ ds) × (p.changed ≡ false)

module _ (K : Kube) (gvk : GroupVersionKind) (src : ObjectRevision) where
  skip_facts :
      (remnants ds ds' : List DestinationStatus) (d : DestinationStatus) (p p' : Progress)
      → is_remnant remnants d ≡ true
      → LoopFacts src remnants ds p ds' p'
      → LoopFacts src remnants (d ∷ ds) p (d ∷ ds') p'
  unfolding expected_success
  skip_facts remnants ds ds' d p p' r f = ground arith

  step_facts :
      (remnants ds ds' : List DestinationStatus) (d d' : DestinationStatus) (p p' p'' : Progress)
      → is_remnant remnants d ≡ false
      → Outcome src d p d' p'
      → LoopFacts src remnants ds p' ds' p''
      → LoopFacts src remnants (d ∷ ds) p (d' ∷ ds') p''
  unfolding expected_success
  step_facts remnants ds ds' d d' p p' p'' r o f = ground arith

  upsert_loop_facts :
      (template : Object K) (remnants ds : List DestinationStatus) (p : Progress) (s : Env K)
      → Returns
          (λ (ds', p'). LoopFacts src remnants ds p ds' p')
          (upsert_loop K gvk src template remnants ds p s).0
  unfolding upsert_loop
  upsert_loop_facts template remnants [] p s = unfold expected_success in ground arith
  upsert_loop_facts template remnants (d ∷ ds) p s = elim (Bool-cases (is_remnant remnants d)) [
    | inl skipped ↦ rw skipped (
        Returns-bind _ _ (upsert_loop K gvk src template remnants ds p) _ s
          (upsert_loop_facts template remnants ds p s)
          (λ (ds', p') t f. skip_facts remnants ds ds' d p p' skipped f))
    | inr wanted ↦ rw wanted (
        Returns-bind _ _
          (attempt_loop K gvk src retry_attempts (destination_template K template d) d p) _ s
          (attempt_loop-Outcome K gvk src retry_attempts (destination_template K template d) d p s)
          λ (d', p') t o.
            Returns-bind _ _ (upsert_loop K gvk src template remnants ds p') _ t
              (upsert_loop_facts template remnants ds p' t)
              (λ (ds', p'') u f. step_facts remnants ds ds' d d' p p' p'' wanted o f))
  ]

module _ (K : Kube) (gvk : GroupVersionKind) (source : Object K)
    (ds remnants : List DestinationStatus) (s : Env K) where
  abbrev start : Progress
  start = record { changed = false; observed_success = 0 }

  abbrev UpsertFacts : Upserted → Type 0
  UpsertFacts u =
      LoopFacts (revision_of source.metadata) remnants ds start u.destinations
        (record { changed = u.changed; observed_success = u.observed })
      × (u.expected ≡ expected_success remnants ds)

  upsert_destinations_facts : Returns UpsertFacts (upsert_destinations K gvk source ds remnants s).0
  unfolding upsert_destinations
  upsert_destinations_facts =
      let src = revision_of source.metadata in
      let template = source_template K source in
      Returns-bind
        (λ (r : List DestinationStatus × Progress). LoopFacts src remnants ds start r.0 r.1)
        UpsertFacts (upsert_loop K gvk src template remnants ds start) _ s
        (upsert_loop_facts K gvk src template remnants ds start s) (λ (ds', p) t f. (f, refl))

  -- The call always comes back, and counts at most as many successes as there are destinations
  -- that are not remnants, which is what it expects.
  pub upsert_destinations-bound :
      Returns
        (λ u. (u.observed ≤ u.expected) × (u.expected ≡ expected_success remnants ds))
        (upsert_destinations K gvk source ds remnants s).0
  upsert_destinations-bound =
      Returns-map UpsertFacts _ _ (λ u f. let b = f.0.bound in ground arith)
        upsert_destinations_facts

  -- When as many copies were brought up to date as expected, each destination that is not a
  -- remnant is noted with the revision of this source.
  pub upsert_destinations_complete :
      Returns
        (λ u.
          u.observed ≡ u.expected
          → All (Current (revision_of source.metadata) remnants) u.destinations)
        (upsert_destinations K gvk source ds remnants s).0
  upsert_destinations_complete =
      Returns-map UpsertFacts _ _ (λ u f e. f.0.complete (omega (arith, e, f.1)))
        upsert_destinations_facts

  -- Destinations keep their place and all but the two revisions, a remnant keeps these too, and
  -- where nothing is reported as changed nothing has.
  pub upsert_destinations-Treated :
      Returns
        (λ u.
          Pointwise (Treated (revision_of source.metadata) remnants) ds u.destinations
          × (u.changed ≡ false → u.destinations ≡ ds))
        (upsert_destinations K gvk source ds remnants s).0
  upsert_destinations-Treated =
      Returns-map UpsertFacts _ _ (λ u f. (f.0.treated, λ e. (f.0.unchanged e).0))
        upsert_destinations_facts
