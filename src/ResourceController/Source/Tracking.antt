-- ===== src/ResourceController/Source/Tracking.antt =====
-- `reconcile_source` writes only copies that the stored status tracks.
use mathlib.Core.Option.{get_or}
use mathlib.Core.Path.{subst, sym}
use k8s_object_syncer.Base.{
  ℕ, ◌≡◌, inl, inr, Option, none, some, List, [], ◌++◌, All, All-map, Any, Any-map, err, ok, arith,
  Result-cases, Option-cases,
}
use k8s_object_syncer.Kube.Meta.{GroupVersionKind}
use k8s_object_syncer.Kube.Server.{Kube}
use k8s_object_syncer.Kube.Client.{Object, Call}
use k8s_object_syncer.Api.Types.{Condition, DestinationStatus}
use k8s_object_syncer.Api.Status.{status_destinations, update_destinations}
use k8s_object_syncer.Api.Status.Order.{sort}
use k8s_object_syncer.ResourceController.Expected.{expected_destinations}
use k8s_object_syncer.Errors.{ControllerError}
use k8s_object_syncer.Utils.Deletion.{delete_destinations}
use k8s_object_syncer.Utils.Deletion.Quiet.{delete_destinations-Quiet}
use k8s_object_syncer.Kube.Writes.{QuietOr}
use k8s_object_syncer.Modifications.Replace.{
  replace_status-Quiet, IsStored, replace_status-IsStored,
}
use k8s_object_syncer.Modifications.{Session, ObjectSyncModifications, replace_status}
use k8s_object_syncer.ResourceController.Upsert.{upsert_destinations, namespaced_api}
use k8s_object_syncer.ResourceController.Upsert.Writes.{
  WritesTo, WritesWanted, upsert_destinations-WritesWanted,
}
use k8s_object_syncer.ResourceController.Source.{
  upsert_tracked, report, plan_destinations, track_destinations, reconcile_source,
}

module _ (K : Kube) (R : Call K → Type 0) where
  report-Quiet :
      (c : Option Condition) (s : Session K)
      → All (QuietOr K R) s.env.calls
      → All (QuietOr K R) (report K c s).1.env.calls
  unfolding report
  report-Quiet none s all = all
  report-Quiet (some c) s all = replace_status-Quiet K R _ all

  track_destinations-Quiet :
      (gvk : GroupVersionKind) (s : Session K)
      → All (QuietOr K R) s.env.calls
      → All (QuietOr K R) (track_destinations K gvk s).1.env.calls
  unfolding track_destinations
  track_destinations-Quiet gvk s all =
      let targets = expected_destinations K s.event.modified (K.namespaces s.env.world) in
      let plan = plan_destinations K gvk s.event.modified targets in
      let r = delete_destinations K plan.stale s.env in
      let deleted = delete_destinations-Quiet K R plan.stale s.env all in
      elim (Result-cases r.0) [
        | inr (e, failed) ↦ ground arith
        | inl (remnants, done) ↦
            let m = update_destinations (sort (plan.expected ++ remnants)) s.event.modified in
            let s' : Session K = record { env = r.1; event = record s.event { modified = m } } in
            ground (arith, replace_status-Quiet K R s' deleted)
      ]

-- The destinations that the `ObjectSync` in memory tracks.
abbrev pub tracked : {K : Kube} → Session K → List DestinationStatus
tracked s = get_or (status_destinations s.event.modified) []

module _ (K : Kube) (gvk : GroupVersionKind) where
  abbrev pub WritesOne : List DestinationStatus → Call K → Type 0
  WritesOne ds c = Any (λ d. WritesTo (namespaced_api K gvk d.namespace) d c.request) ds

  -- The call writes nothing, or writes to one of these destinations.
  abbrev pub WritesTracked : List DestinationStatus → Call K → Type 0
  WritesTracked ds = QuietOr K (WritesOne ds)

  quiet_only :
      (remnants ds : List DestinationStatus) (c : Call K)
      → WritesTracked [] c
      → WritesWanted K gvk remnants ds c
  quiet_only remnants ds c (inl quiet) = inl quiet
  quiet_only remnants ds c (inr h) = absurd h

  quiet_tracked :
      (ds : List DestinationStatus) (c : Call K) → WritesTracked [] c → WritesTracked ds c
  quiet_tracked ds c (inl quiet) = inl quiet
  quiet_tracked ds c (inr h) = absurd h

  drop_wanted :
      (remnants ds : List DestinationStatus) (c : Call K)
      → WritesWanted K gvk remnants ds c
      → WritesTracked ds c
  drop_wanted remnants ds c (inl quiet) = inl quiet
  drop_wanted remnants ds c (inr h) = inr (Any-map _ _ ds (λ d w. w.1) h)

  upsert_tracked-WritesTracked :
      (source : Object K) (remnants : List DestinationStatus) (n : ℕ) (s : Session K)
      → All (WritesTracked []) s.env.calls
      → All (WritesTracked (tracked s)) (upsert_tracked K gvk source remnants n s).1.env.calls
  unfolding upsert_tracked
  upsert_tracked-WritesTracked source remnants n s all =
      elim (Option-cases (status_destinations s.event.modified)) [
        | inl untracked ↦ ground arith
        | inr (ds, known) ↦
            let written : All (WritesWanted K gvk remnants ds)
                (upsert_destinations K gvk source ds remnants s.env).1.calls =
              upsert_destinations-WritesWanted K gvk source ds remnants s.env (
                All-map (WritesTracked []) (WritesWanted K gvk remnants ds) _
                  (quiet_only remnants ds) all) in
            let tracked_only =
              All-map (WritesWanted K gvk remnants ds) (WritesTracked ds) _
                (drop_wanted remnants ds) written in
            ground arith
      ]

  -- The `ObjectSync` with the plan in its status, and the remnants.
  abbrev pub planned : Session K → List DestinationStatus → ObjectSyncModifications
  planned s remnants =
      let targets = expected_destinations K s.event.modified (K.namespaces s.env.world) in
      let plan = plan_destinations K gvk s.event.modified targets in
      record s.event {
        modified = update_destinations (sort (plan.expected ++ remnants)) s.event.modified;
      }

  track_destinations-IsStored :
      (s : Session K) (remnants : List DestinationStatus) (n : ℕ)
      → (track_destinations K gvk s).0 ≡ ok (remnants, n)
      → IsStored K (planned s remnants) (track_destinations K gvk s).1.event
  unfolding track_destinations
  track_destinations-IsStored s remnants n h =
      let targets = expected_destinations K s.event.modified (K.namespaces s.env.world) in
      let plan = plan_destinations K gvk s.event.modified targets in
      let r = delete_destinations K plan.stale s.env in
      elim (Result-cases r.0) [
        | inr (e, failed) ↦ ground arith
        | inl (left, done) ↦
            let s' : Session K = record { env = r.1; event = planned s left } in
            elim (Result-cases (replace_status K s').0) [
              | inr (e, failed) ↦ ground arith
              | inl (_, stored) ↦
                  let same : left ≡ remnants = ground arith in
                  let at : (track_destinations K gvk s).1 ≡ (replace_status K s').1 =
                    ground arith in
                  let told = replace_status-IsStored K s' stored in
                  subst (λ l. IsStored K (planned s l) (track_destinations K gvk s).1.event) same
                    (subst (λ (t : Session K). IsStored K (planned s left) t.event) (sym at) told)
            ]
      ]

  pub reconcile_source-WritesTracked :
      (source : Object K) (s : Session K)
      → All (WritesTracked []) s.env.calls
      → All
          (WritesTracked (tracked (track_destinations K gvk s).1))
          (reconcile_source K gvk source s).1.env.calls
        × ((e : ControllerError)
            → (track_destinations K gvk s).0 ≡ err e
            → All (WritesTracked []) (reconcile_source K gvk source s).1.env.calls)
        × ((remnants : List DestinationStatus) (n : ℕ)
            → (track_destinations K gvk s).0 ≡ ok (remnants, n)
            → IsStored K (planned s remnants) (track_destinations K gvk s).1.event)
  unfolding reconcile_source
  reconcile_source-WritesTracked source s all =
      let quiet = track_destinations-Quiet K (λ _. ⊥) gvk s all in
      let t = (track_destinations K gvk s).1 in
      elim (Result-cases (track_destinations K gvk s).0) [
        | inr (e, failed) ↦
            let same : (reconcile_source K gvk source s).1 ≡ t = ground arith in
            (
              subst (λ (u : Session K). All (WritesTracked (tracked t)) u.env.calls) (sym same)
                  (All-map (WritesTracked []) (WritesTracked (tracked t)) _
                    (quiet_tracked (tracked t)) quiet),
              λ _ _. subst (λ (u : Session K). All (WritesTracked []) u.env.calls) (sym same) quiet,
              track_destinations-IsStored s,
            )
        | inl (out, stored) ↦
            let u = upsert_tracked K gvk source out.0 out.1 t in
            let written = upsert_tracked-WritesTracked source out.0 out.1 t quiet in
            (
              elim (Result-cases u.0) [
                | inr (e, failed) ↦ ground arith
                | inl (c, done) ↦
                    ground (arith, report-Quiet K (WritesOne (tracked t)) c u.1 written)
              ],
              λ e bad. ground arith,
              track_destinations-IsStored s,
            )
      ]
