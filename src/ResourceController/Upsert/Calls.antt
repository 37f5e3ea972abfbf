-- ===== src/ResourceController/Upsert/Calls.antt =====
-- How often `upsert_destinations` asks the server.
use k8s_object_syncer.Base.{
  String, ℕ, zero, suc, ◌+◌, ◌*◌, ◌≤◌, List, [], ◌∷◌, length, arith, false, inl, inr, Bool-cases,
  Result-cases,
}
use k8s_object_syncer.Kube.Meta.{GroupVersionKind}
use k8s_object_syncer.Kube.Server.{Kube, Api}
use k8s_object_syncer.Kube.Client.{Object, Env}
use k8s_object_syncer.Api.Types.{DestinationStatus, ObjectRevision}
use k8s_object_syncer.Utils.Finalizers.{remove_finalizer}
use k8s_object_syncer.Api.Destination.{revision_of}
use k8s_object_syncer.ResourceController.Template.{source_template, destination_template}
use k8s_object_syncer.ResourceController.Upsert.{
  Progress, update_existing, release_deleted, attempt_once, attempt_loop, upsert_loop,
  upsert_destinations, expected_success, is_remnant, retry_attempts,
}

module _ (K : Kube) where
  remove_finalizer-calls :
      (api : Api) (o : Object K) (finalizer : String) (s : Env K)
      → length (remove_finalizer K api o finalizer s).1.calls ≤ length s.calls + 1
  unfolding remove_finalizer
  remove_finalizer-calls api o finalizer s = ground arith

module _ (K : Kube) (gvk : GroupVersionKind) (src : ObjectRevision) where
  release_deleted-calls :
      (d : DestinationStatus) (current : Object K) (s : Env K)
      → length (release_deleted K gvk src d current s).1.calls ≤ length s.calls + 1
  unfolding release_deleted
  release_deleted-calls d current s = grind (arith, remove_finalizer-calls)

  update_existing-calls :
      (template : Object K) (d : DestinationStatus) (p : Progress) (current : Object K) (s : Env K)
      → length (update_existing K gvk src template d p current s).1.calls ≤ length s.calls + 1
  unfolding update_existing
  update_existing-calls template d p current s = ground arith

  attempt_once-calls :
      (template : Object K) (d : DestinationStatus) (p : Progress) (s : Env K)
      → length (attempt_once K gvk src template d p s).1.calls ≤ length s.calls + 3
  unfolding attempt_once
  attempt_once-calls template d p s = grind (arith, release_deleted-calls, update_existing-calls)

  attempt_loop-calls :
      (n : ℕ) (template : Object K) (d : DestinationStatus) (p : Progress) (s : Env K)
      → length (attempt_loop K gvk src n template d p s).1.calls ≤ length s.calls + 3 * n
  unfolding attempt_loop
  attempt_loop-calls zero template d p s = ground arith
  attempt_loop-calls (suc n) template d p s = ground (
    arith,
    attempt_once-calls template d p s,
    attempt_loop-calls n template d p (attempt_once K gvk src template d p s).1,
  )

  upsert_loop-calls :
      (template : Object K) (remnants ds : List DestinationStatus) (p : Progress) (s : Env K)
      → length (upsert_loop K gvk src template remnants ds p s).1.calls
        ≤ length s.calls + 9 * expected_success remnants ds
  unfolding upsert_loop expected_success
  upsert_loop-calls template remnants [] p s = ground arith
  upsert_loop-calls template remnants (d ∷ ds) p s =
      let t = destination_template K template d in
      let tried = attempt_loop K gvk src retry_attempts t d p s in
      elim (Bool-cases (is_remnant remnants d)) [
        | inl skipped ↦ ground (arith, upsert_loop-calls template remnants ds p s)
        | inr wanted ↦ elim (Result-cases tried.0) [
          | inr (e, failed) ↦ ground (arith, attempt_loop-calls 3 t d p s)
          | inl ((d', p'), done) ↦ ground (
            arith,
            attempt_loop-calls 3 t d p s,
            upsert_loop-calls template remnants ds p' tried.1,
          )
        ]
      ]

module _ (K : Kube) where
  -- For each destination that is not a remnant the server is asked nine times at most, three times
  -- in each of three attempts, however it answers; for remnants it is not asked.
  pub upsert_destinations-calls :
      (gvk : GroupVersionKind) (source : Object K) (ds remnants : List DestinationStatus)
      (s : Env K)
      → length (upsert_destinations K gvk source ds remnants s).1.calls
        ≤ length s.calls + 9 * expected_success remnants ds
  unfolding upsert_destinations
  upsert_destinations-calls gvk source ds remnants s =
      let start : Progress = record { changed = false; observed_success = 0 } in
      let src = revision_of source.metadata in
      ground (arith, upsert_loop-calls K gvk src (source_template K source) remnants ds start s)
