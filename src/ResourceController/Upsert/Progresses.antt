-- ===== src/ResourceController/Upsert/Progresses.antt =====
-- With a server that answers, one run brings all copies up to date.
use k8s_object_syncer.Base.{
  String, ◌+◌, ◌≡◌, inl, inr, true, false, none, some, List, [], ◌∷◌, ok, err, Result, Returns, All,
  arith, Bool-cases, Result-cases,
}
use k8s_object_syncer.Kube.Meta.{GroupVersionKind, KubeError}
use k8s_object_syncer.Kube.Server.{Kube, Api, PostParams, PatchParams, Patch}
use k8s_object_syncer.Kube.Client.{Object, Env, get}
use k8s_object_syncer.Api.Types.{DestinationStatus, ObjectRevision}
use k8s_object_syncer.Api.Destination.{revision_of}
use k8s_object_syncer.Errors.{is_not_found}
use k8s_object_syncer.Modifications.{post_params}
use k8s_object_syncer.ResourceController.Template.{
  source_template, at_revision, no_revision, destination_template,
}
use k8s_object_syncer.ResourceController.Upsert.{
  Progress, Turn, namespaced_api, update_existing, release_deleted, attempt_once, attempt_loop,
  upsert_loop, upsert_destinations, expected_success, is_remnant, retry_attempts,
}
use k8s_object_syncer.ResourceController.Upsert.Outcome.{Current, upsert_destinations_complete}

-- Every object that is asked for is there and stays, or is missing, and every write is accepted.
pub record Accepts (K : Kube) : Type 0 where
  pub stays :
      (api : Api) (name : String) (w : K.World) (o : Object K)
      → (K.get api name w).0 ≡ ok o
      → o.metadata.deletion_timestamp ≡ none
  pub missing :
      (api : Api) (name : String) (w : K.World) (e : KubeError)
      → (K.get api name w).0 ≡ err e
      → is_not_found e ≡ true
  pub creates :
      (api : Api) (pp : PostParams) (o : Object K) (w : K.World)
      → Returns (λ _. Unit {0}) (K.create api pp o w).0
  pub replaces :
      (api : Api) (name : String) (pp : PostParams) (o : Object K) (w : K.World)
      → Returns (λ _. Unit {0}) (K.replace api name pp o w).0
  pub patches :
      (api : Api) (name : String) (pp : PatchParams) (p : Patch K.Value K.Operation) (w : K.World)
      → Returns (λ _. Unit {0}) (K.patch api name pp p w).0

abbrev Succeeded : Progress → Turn → Type 0
Succeeded p none = ⊥
Succeeded p (some (d, p')) = p'.observed_success ≡ p.observed_success + 1

module _ (K : Kube) (gvk : GroupVersionKind) (src : ObjectRevision) (accepts : Accepts K) where
  update_existing-Succeeded :
      (template : Object K) (d : DestinationStatus) (p : Progress) (current : Object K) (s : Env K)
      → Returns (Succeeded p) (update_existing K gvk src template d p current s).0
  unfolding update_existing
  update_existing-Succeeded template d p current s =
      grind (arith, accepts.replaces, accepts.patches)

  attempt_once-Succeeded :
      (template : Object K) (d : DestinationStatus) (p : Progress) (s : Env K)
      → Returns (Succeeded p) (attempt_once K gvk src template d p s).0
  unfolding attempt_once release_deleted
  attempt_once-Succeeded template d p s =
      let api = namespaced_api K gvk d.namespace in
      elim (Result-cases (K.get api d.name s.world).0) [
        | inl (o, found) ↦ ground (
          arith,
          accepts.stays api d.name s.world o,
          update_existing-Succeeded template d p o (get K api d.name s).1,
        )
        | inr (e, failed) ↦ ground (
          arith,
          accepts.missing api d.name s.world e,
          accepts.creates api post_params (at_revision K template no_revision)
              (get K api d.name s).1.world,
        )
      ]

  attempt_loop-Succeeded :
      (template : Object K) (d : DestinationStatus) (p : Progress) (s : Env K)
      → Returns
          (λ (d', p'). p'.observed_success ≡ p.observed_success + 1)
          (attempt_loop K gvk src retry_attempts template d p s).0
  unfolding attempt_loop
  attempt_loop-Succeeded template d p s = ground (arith, attempt_once-Succeeded template d p s)

  upsert_loop-Succeeded :
      (template : Object K) (remnants ds : List DestinationStatus) (p : Progress) (s : Env K)
      → Returns
          (λ (ds', p'). p'.observed_success ≡ p.observed_success + expected_success remnants ds)
          (upsert_loop K gvk src template remnants ds p s).0
  unfolding upsert_loop expected_success
  upsert_loop-Succeeded template remnants [] p s = ground arith
  upsert_loop-Succeeded template remnants (d ∷ ds) p s =
      let t = destination_template K template d in
      let tried = attempt_loop K gvk src retry_attempts t d p s in
      let succeeds = attempt_loop-Succeeded t d p s in
      elim (Bool-cases (is_remnant remnants d)) [
        | inl skipped ↦ ground (arith, upsert_loop-Succeeded template remnants ds p s)
        | inr wanted ↦ elim (Result-cases tried.0) [
          | inr (e, failed) ↦ absurd (rw failed at succeeds)
          | inl ((d', p'), done) ↦
              ground (arith, upsert_loop-Succeeded template remnants ds p' tried.1)
        ]
      ]

both :
    {E A : Type 0} (P Q : A → Type 0) (r : Result E A)
    → Returns P r
    → Returns (λ a. P a → Q a) r
    → Returns (λ a. P a × Q a) r
both P Q (ok a) p q = (p, q p)
both P Q (err e) p q = p

module _ (K : Kube) (accepts : Accepts K) where
  upsert_destinations_observes :
      (gvk : GroupVersionKind) (source : Object K) (ds remnants : List DestinationStatus)
      (s : Env K)
      → Returns (λ u. u.observed ≡ u.expected) (upsert_destinations K gvk source ds remnants s).0
  unfolding upsert_destinations
  upsert_destinations_observes gvk source ds remnants s =
      let src = revision_of source.metadata in
      let start : Progress = record { changed = false; observed_success = 0 } in
      ground (
        arith,
        upsert_loop-Succeeded K gvk src accepts (source_template K source) remnants ds start s,
      )

  -- If every copy can be read or is missing, none is being deleted, and every write is accepted,
  -- then one run brings all destinations that are no remnants up to date with the source: as many
  -- successes are counted as are expected, and each is noted with the revision of the source.
  pub upsert_destinations_succeeds :
      (gvk : GroupVersionKind) (source : Object K) (ds remnants : List DestinationStatus)
      (s : Env K)
      → Returns
          (λ u.
            (u.observed ≡ u.expected)
            × All (Current (revision_of source.metadata) remnants) u.destinations)
          (upsert_destinations K gvk source ds remnants s).0
  upsert_destinations_succeeds gvk source ds remnants s =
      let r = (upsert_destinations K gvk source ds remnants s).0 in
      let counts = upsert_destinations_observes gvk source ds remnants s in
      let notes = upsert_destinations_complete K gvk source ds remnants s in
      both (λ u. u.observed ≡ u.expected)
        (λ u. All (Current (revision_of source.metadata) remnants) u.destinations) r counts notes
