-- ===== src/ResourceController/Upsert/Idle.antt =====
-- Runs of `upsert_destinations` that write nothing: when all is in sync, and when every creation is
-- refused.
use k8s_object_syncer.Base.{
  ℕ, ◌+◌, String, Bool, if◌then◌else◌, ◌≡◌, false, true, none, some, List, [], ◌∷◌, All, Returns,
  ok, err, arith, inl, inr, Bool-cases,
}
use k8s_object_syncer.Kube.Meta.{GroupVersionKind, KubeError}
use k8s_object_syncer.Kube.Server.{Kube, Api, PostParams}
use k8s_object_syncer.Kube.Client.{is_get, get, Object, Env, Call}
use k8s_object_syncer.Api.Types.{DestinationStatus, ObjectRevision}
use k8s_object_syncer.Api.Destination.{revision_of}
use k8s_object_syncer.Api.Status.{status_destinations}
use k8s_object_syncer.Errors.{is_not_found, is_conflict}
use k8s_object_syncer.Modifications.{Session, post_params}
use k8s_object_syncer.ResourceController.Template.{
  at_revision, no_revision, source_template, destination_template,
}
use k8s_object_syncer.ResourceController.Upsert.{
  Progress, namespaced_api, is_outdated, update_existing, release_deleted, attempt_once,
  attempt_loop, upsert_loop, Upserted, upsert_destinations, expected_success, is_remnant,
  retry_attempts, after_create,
}
use k8s_object_syncer.ResourceController.Source.{sync_condition, upsert_tracked}

-- So many successes more.
abbrev advanced : ℕ → Progress → Progress
advanced n p = record p { observed_success = p.observed_success + n }

module _ (K : Kube) (gvk : GroupVersionKind) (src : ObjectRevision) (Q : Call K → Type 0)
    (hit : Bool) where
  -- The attempts leave the destination as it is, and count a success or none.
  abbrev Idles : Object K → DestinationStatus → Type 0
  Idles template d =
      (p : Progress) (s : Env K)
      → ((attempt_loop K gvk src retry_attempts (destination_template K template d) d p s).0
          ≡ ok (d, advanced (if hit then 1 else 0) p))
        × (All Q s.calls
            → All Q
                (attempt_loop K gvk src retry_attempts (destination_template K template d) d p
                  s).1.calls)

  upsert_loop-Idles :
      (template : Object K) (remnants ds : List DestinationStatus) (p : Progress) (s : Env K)
      → All (Idles template) ds
      → ((upsert_loop K gvk src template remnants ds p s).0
          ≡ ok (ds, advanced (if hit then expected_success remnants ds else 0) p))
        × (All Q s.calls → All Q (upsert_loop K gvk src template remnants ds p s).1.calls)
  unfolding upsert_loop expected_success
  upsert_loop-Idles template remnants [] p s idle = ground arith
  upsert_loop-Idles template remnants (d ∷ ds) p s (idle, idles) =
      let t = destination_template K template d in
      let tried = attempt_loop K gvk src retry_attempts t d p s in
      elim (Bool-cases (is_remnant remnants d)) [
        | inl skipped ↦ ground (arith, upsert_loop-Idles template remnants ds p s idles)
        | inr wanted ↦ ground (
          arith,
          idle p s,
          upsert_loop-Idles template remnants ds (advanced (if hit then 1 else 0) p) tried.1 idles,
        )
      ]

-- The copy is there, as it was last written and from this revision of the source.
pub record InSync (K : Kube) (gvk : GroupVersionKind) (src : ObjectRevision) (d : DestinationStatus)
    : Type 0 where
  pub there :
      (w : K.World)
      → Returns
          (λ o.
            (o.metadata.deletion_timestamp ≡ none)
            × (d.synced_version ≡ some (revision_of o.metadata)))
          (K.get (namespaced_api K gvk d.namespace) d.name w).0
  pub written_from : d.source_version ≡ some src

-- No copy is there, and none may be created.
pub record Refuses (K : Kube) : Type 0 where
  pub missing :
      (api : Api) (name : String) (w : K.World)
      → (e : KubeError) × ((K.get api name w).0 ≡ err e) × (is_not_found e ≡ true)
  pub refused :
      (api : Api) (pp : PostParams) (o : Object K) (w : K.World)
      → (e : KubeError) × ((K.create api pp o w).0 ≡ err e) × (is_conflict e ≡ false)

-- The call reads an object.
abbrev pub IsRead : (K : Kube) → Call K → Type 0
IsRead K c = is_get c.request ≡ true

module _ (K : Kube) (gvk : GroupVersionKind) (src : ObjectRevision) where
  InSync-Idles :
      (template : Object K) (d : DestinationStatus)
      → InSync K gvk src d
      → Idles K gvk src (IsRead K) true template d
  unfolding attempt_loop attempt_once release_deleted update_existing is_outdated
  InSync-Idles template d h p s = ground (arith, h.there s.world, h.written_from)

  All-InSync-Idles :
      (template : Object K) (ds : List DestinationStatus)
      → All (InSync K gvk src) ds
      → All (Idles K gvk src (IsRead K) true template) ds
  All-InSync-Idles template [] h = tt
  All-InSync-Idles template (d ∷ ds) (h, hs) =
      (InSync-Idles template d h, All-InSync-Idles template ds hs)

  module _ (refuses : Refuses K) where
    Refuses-Idles :
        (template : Object K) (d : DestinationStatus)
        → Idles K gvk src (λ _. Unit {0}) false template d
    unfolding attempt_loop attempt_once after_create
    Refuses-Idles template d p s =
        let api = namespaced_api K gvk d.namespace in
        let found = get K api d.name s in
        let bare = at_revision K (destination_template K template d) no_revision in
        ground (
          arith,
          refuses.missing api d.name s.world,
          refuses.refused api post_params bare found.1.world,
        )

    All-Refuses-Idles :
        (template : Object K) (ds : List DestinationStatus)
        → All (Idles K gvk src (λ _. Unit {0}) false template) ds
    All-Refuses-Idles template [] = tt
    All-Refuses-Idles template (d ∷ ds) = (Refuses-Idles template d, All-Refuses-Idles template ds)

abbrev pub untouched : List DestinationStatus → List DestinationStatus → ℕ → Upserted
untouched remnants ds observed = record {
  destinations = ds;
  changed = false;
  expected = expected_success remnants ds;
  observed = observed;
}

module _ (K : Kube) (gvk : GroupVersionKind) where
  abbrev initial : Progress
  initial = record { changed = false; observed_success = 0 }

  -- If every copy is there as it was last written, and from the present revision of the source, then
  -- the run counts all as successes and only reads.
  pub upsert_destinations_steady :
      (source : Object K) (ds remnants : List DestinationStatus) (s : Env K)
      → All (InSync K gvk (revision_of source.metadata)) ds
      → All (IsRead K) s.calls
      → ((upsert_destinations K gvk source ds remnants s).0
          ≡ ok (untouched remnants ds (expected_success remnants ds)))
        × All (IsRead K) (upsert_destinations K gvk source ds remnants s).1.calls
  unfolding upsert_destinations
  upsert_destinations_steady source ds remnants s synced reads =
      let src = revision_of source.metadata in
      let template = source_template K source in
      let idle = All-InSync-Idles K gvk src template ds synced in
      ground
        (arith, upsert_loop-Idles K gvk src (IsRead K) true template remnants ds initial s idle)

  upsert_destinations_refused :
      (source : Object K) (ds remnants : List DestinationStatus) (s : Env K)
      → Refuses K
      → (upsert_destinations K gvk source ds remnants s).0 ≡ ok (untouched remnants ds 0)
  unfolding upsert_destinations
  upsert_destinations_refused source ds remnants s refuses =
      let src = revision_of source.metadata in
      let template = source_template K source in
      let idle = All-Refuses-Idles K gvk src refuses template ds in
      ground (
        arith,
        upsert_loop-Idles K gvk src (λ _. Unit {0}) false template remnants ds initial s idle,
      )

  -- If no copy is there and the server refuses to create any, then no success is counted, yet
  -- there is no condition to report, unless a stale copy has been removed.
  pub upsert_tracked_refused :
      (source : Object K) (ds remnants : List DestinationStatus) (s : Session K)
      → Refuses K
      → status_destinations s.event.modified ≡ some ds
      → ((upsert_destinations K gvk source ds remnants s.env).0 ≡ ok (untouched remnants ds 0))
        × ((upsert_tracked K gvk source remnants 0 s).0 ≡ ok none)
  unfolding upsert_tracked sync_condition
  upsert_tracked_refused source ds remnants s refuses tracked =
      let u = upsert_destinations_refused source ds remnants s.env refuses in (u, ground (arith, u))
