-- ===== src/ResourceController/Upsert/Converges.antt =====
-- With a server that stores what it is sent, a second run of `upsert_destinations` writes nothing.
use mathlib.Core.Path.{subst}
use k8s_object_syncer.Base.{
  ℕ, ◌+◌, string_eq, ◌≡◌, false, none, Option, List, [], ◌∷◌, All, Returns, Result, ok, arith, inl,
  inr, Bool-cases, Option-cases, Result-cases,
}
use k8s_object_syncer.Kube.Meta.{GroupVersionKind}
use k8s_object_syncer.Kube.Server.{Kube}
use k8s_object_syncer.Kube.Client.{Object, Env}
use k8s_object_syncer.Kube.Storing.{Reads, Stores}
use k8s_object_syncer.Api.Types.{DestinationStatus, ObjectRevision}
use k8s_object_syncer.Api.Destination.{revision_of}
use k8s_object_syncer.Errors.{ControllerError}
use k8s_object_syncer.Utils.Names.{NamespacedName, key_of}
use k8s_object_syncer.ResourceController.Template.{source_template, destination_template}
use k8s_object_syncer.ResourceController.Upsert.{
  Progress, Upserted, is_outdated, is_remnant, expected_success, seen_progress, upsert_loop,
  upsert_destinations,
}
use k8s_object_syncer.ResourceController.Upsert.Idle.{IsRead, untouched}
use k8s_object_syncer.ResourceController.Upsert.Brought.{IsFree, IsNoted, Synced, reading, run_kept}
use k8s_object_syncer.ResourceController.Upsert.Settles.{
  AreDistinct, Settled, Settles, tried, upsert_loop-Settles,
}

module _ (K : Kube) (gvk : GroupVersionKind) (view : K.World → NamespacedName → Option (Object K))
    (src : ObjectRevision) where
  -- So many successes more.
  abbrev advanced : ℕ → Progress → Progress
  advanced n p = record p { observed_success = p.observed_success + n }

  module _ (reads : Reads K (K.from_gvk gvk.group gvk.version gvk.kind) view) where
    -- A destination that is up to date is read once, and counts as a success.
    Synced-run :
        (template : Object K) (d : DestinationStatus) (p : Progress) (s : Env K)
        → Synced K gvk view src s.world d
        → tried K gvk view src template d p s
          ≡ (ok (d, seen_progress p), reading K gvk view src d s)
    unfolding is_outdated
    Synced-run template d p s (noted, from) = elim (Option-cases (view s.world (key_of d))) [
      | inl absent ↦ absurd (subst (IsNoted K gvk view src d) absent noted)
      | inr (o, here) ↦
          let (stays, synced) = subst (IsNoted K gvk view src d) here noted in
          run_kept K gvk view src reads (destination_template K template d) d p s o here stays
            (ground arith)
    ]

    All-Settled-read :
        (remnants ds : List DestinationStatus) (w w' : K.World)
        → ((j : NamespacedName) → view w' j ≡ view w j)
        → All (Settled K gvk view src remnants w) ds
        → All (Settled K gvk view src remnants w') ds
    All-Settled-read remnants [] w w' same settled = tt
    All-Settled-read remnants (d ∷ ds) w w' same (h, settled) = (
      elim h [
        | inl skipped ↦ inl skipped
        | inr synced ↦ inr (rw (same (key_of d)) synced.0, synced.1)
      ],
      All-Settled-read remnants ds w w' same settled,
    )

    -- Where everything is settled, the loop only reads.
    upsert_loop-Settled :
        (template : Object K) (remnants ds : List DestinationStatus) (p : Progress) (s : Env K)
        → All (Settled K gvk view src remnants s.world) ds
        → ((upsert_loop K gvk src template remnants ds p s).0
            ≡ ok (ds, advanced (expected_success remnants ds) p))
          × (All (IsRead K) s.calls
              → All (IsRead K) (upsert_loop K gvk src template remnants ds p s).1.calls)
    unfolding upsert_loop expected_success
    upsert_loop-Settled template remnants [] p s settled = ground arith
    upsert_loop-Settled template remnants (d ∷ ds) p s (h, settled) =
        elim (Bool-cases (is_remnant remnants d)) [
          | inl skipped ↦ ground (arith, upsert_loop-Settled template remnants ds p s settled)
          | inr wanted ↦ elim h [
            | inl skipped ↦ ground arith
            | inr synced ↦
                let t = reading K gvk view src d s in
                let settled' =
                  All-Settled-read remnants ds s.world t.world (reads.read_only (key_of d) s.world)
                    settled in
                ground (
                  arith,
                  Synced-run template d p s synced,
                  upsert_loop-Settled template remnants ds (seen_progress p) t settled',
                )
          ]
        ]

module _ (K : Kube) (gvk : GroupVersionKind) where
  -- The run after a run, at a server on which no other party acts meanwhile.
  abbrev pub again :
      Object K
      → List DestinationStatus
      → List DestinationStatus
      → Env K
      → Result ControllerError Upserted × Env K
  again source ds remnants t =
      upsert_destinations K gvk source ds remnants (record t { calls = [] })

  abbrev initial : Progress
  initial = record { changed = false; observed_success = 0 }

  abbrev looped :
      Object K
      → List DestinationStatus
      → List DestinationStatus
      → Env K
      → Result ControllerError (List DestinationStatus × Progress) × Env K
  looped source ds remnants s =
      upsert_loop K gvk (revision_of source.metadata) (source_template K source) remnants ds initial
        s

  upsert_run :
      (source : Object K) (ds ds' remnants : List DestinationStatus) (p : Progress) (s : Env K)
      → (looped source ds remnants s).0 ≡ ok (ds', p)
      → upsert_destinations K gvk source ds remnants s ≡ (
        ok (record {
          destinations = ds';
          changed = p.changed;
          expected = expected_success remnants ds;
          observed = p.observed_success;
        }),
        (looped source ds remnants s).1,
      )
  unfolding upsert_destinations
  upsert_run source ds ds' remnants p s done = ground arith

  template_stays :
      (source : Object K)
      → source.metadata.deletion_timestamp ≡ none
      → (source_template K source).metadata.deletion_timestamp ≡ none
  unfolding source_template
  template_stays source stays = stays

  module _ (view : K.World → NamespacedName → Option (Object K)) where
    -- Where every destination that is no remnant is up to date, a run counts all as successes and
    -- only reads, if no other party acts meanwhile.
    pub upsert_destinations-Settled :
        (source : Object K) (ds remnants : List DestinationStatus) (s : Env K)
        → Reads K (K.from_gvk gvk.group gvk.version gvk.kind) view
        → All (Settled K gvk view (revision_of source.metadata) remnants s.world) ds
        → All (IsRead K) s.calls
        → ((upsert_destinations K gvk source ds remnants s).0
            ≡ ok (untouched remnants ds (expected_success remnants ds)))
          × All (IsRead K) (upsert_destinations K gvk source ds remnants s).1.calls
    unfolding upsert_destinations
    upsert_destinations-Settled source ds remnants s reads settled before = ground (
      arith,
      upsert_loop-Settled K gvk view (revision_of source.metadata) reads (source_template K source)
          remnants ds initial s settled,
    )

    pub upsert_destinations_converges :
        (source : Object K) (ds remnants : List DestinationStatus) (s : Env K)
        → Stores K (K.from_gvk gvk.group gvk.version gvk.kind) view
        → source.metadata.deletion_timestamp ≡ none
        → AreDistinct ds
        → All (λ d. IsFree K gvk view (revision_of source.metadata) (view s.world (key_of d))) ds
        → let first = upsert_destinations K gvk source ds remnants s in
          Returns
            (λ u.
              (u.observed ≡ u.expected)
              × All
                  (Settled K gvk view (revision_of source.metadata) remnants first.1.world)
                  u.destinations
              × ((again source u.destinations remnants first.1).0
                  ≡ ok (record u { changed = false }))
              × All (IsRead K) (again source u.destinations remnants first.1).1.calls)
            first.0
    upsert_destinations_converges source ds remnants s stores stays distinct free =
        let src = revision_of source.metadata in
        let loop = looped source ds remnants s in
        let settles =
          upsert_loop-Settles K gvk view src stores (source_template K source) remnants ds initial s
            (template_stays source stays) distinct free in
        let settles_at = λ (r : Result ControllerError (List DestinationStatus × Progress)).
          Settles K gvk view src s.world remnants ds initial (r, loop.1) in
        elim (Result-cases loop.0) [
          | inr (e, failed) ↦ absurd (subst settles_at failed settles)
          | inl ((ds', p), done) ↦
              let (counts, expects, settled, others) : settles_at (ok (ds', p)) =
                subst settles_at done settles in
              let (same, reads) =
                upsert_destinations-Settled source ds' remnants (record loop.1 { calls = [] })
                  stores.reads settled tt in
              rw (upsert_run source ds ds' remnants p s done)
                (ground arith, settled, ground (arith, same), reads)
        ]
