-- ===== src/ResourceController/Upsert/Settles.antt =====
-- The loop of `upsert_destinations` at a server that stores what it is sent.
use mathlib.Core.Path.{subst}
use k8s_object_syncer.Base.{
  ◌+◌, string_eq, ◌≡◌, ◌≢◌, ◌⊎◌, refl, sym, ◌∙◌, false, true, none, Option, List, [], ◌∷◌, All,
  Result, ok, err, arith, inl, inr, Bool-cases, Result-cases,
}
use k8s_object_syncer.Kube.Meta.{GroupVersionKind}
use k8s_object_syncer.Kube.Server.{Kube}
use k8s_object_syncer.Kube.Client.{Object, Env}
use k8s_object_syncer.Kube.Storing.{Stores}
use k8s_object_syncer.Api.Types.{DestinationStatus, ObjectRevision}
use k8s_object_syncer.Errors.{ControllerError}
use k8s_object_syncer.Utils.Names.{NamespacedName, key_of}
use k8s_object_syncer.ResourceController.Template.{destination_template}
use k8s_object_syncer.ResourceController.Upsert.{
  Progress, is_same_destination, is_remnant, expected_success, upsert_loop,
}
use k8s_object_syncer.ResourceController.Upsert.Brought.{
  IsSame, IsFree, IsNoted, Synced, Brought, IsFor, run, run-Brought,
}

-- No two destinations are the same object.
abbrev pub AreDistinct : List DestinationStatus → Type 0
AreDistinct [] = Unit
AreDistinct (d ∷ ds) = All (λ e. key_of d ≢ key_of e) ds × AreDistinct ds

same_remnant :
    (remnants : List DestinationStatus) (a b : DestinationStatus)
    → IsSame a b
    → is_remnant remnants a ≡ is_remnant remnants b
unfolding is_same_destination
same_remnant [] a b same = refl
same_remnant (v ∷ vs) a b same = ground (arith, same_remnant vs a b same)

module _ (K : Kube) (gvk : GroupVersionKind) (view : K.World → NamespacedName → Option (Object K))
    (src : ObjectRevision) where
  abbrev Free : K.World → DestinationStatus → Type 0
  Free w d = IsFree K gvk view src (view w (key_of d))

  abbrev pub IsSynced : K.World → DestinationStatus → Type 0
  IsSynced w d = Synced K gvk view src w d

  -- The destination is passed over, or up to date.
  abbrev pub Settled : List DestinationStatus → K.World → DestinationStatus → Type 0
  Settled remnants w d = (is_remnant remnants d ≡ true) ⊎ IsSynced w d

  -- What the loop comes to.
  abbrev pub Settles :
      K.World
      → List DestinationStatus
      → List DestinationStatus
      → Progress
      → Result ControllerError (List DestinationStatus × Progress) × Env K
      → Type 0
  Settles w remnants ds p (err e, t) = ⊥
  Settles w remnants ds p (ok (ds', p'), t) =
      (p'.observed_success ≡ p.observed_success + expected_success remnants ds)
      × (expected_success remnants ds' ≡ expected_success remnants ds)
      × All (Settled remnants t.world) ds'
      × ((j : NamespacedName) → All (λ d. j ≢ key_of d) ds → view t.world j ≡ view w j)

  -- The attempts for one destination, in the loop.
  abbrev pub tried :
      Object K
      → DestinationStatus
      → Progress
      → Env K
      → Result ControllerError (DestinationStatus × Progress) × Env K
  tried template d p s = run K gvk view src (destination_template K template d) d p s

  module _ (stores : Stores K (K.from_gvk gvk.group gvk.version gvk.kind) view) where
    All-Free-Others :
        (k : NamespacedName) (w w' : K.World) (ds : List DestinationStatus)
        → ((j : NamespacedName) → j ≢ k → view w' j ≡ view w j)
        → All (λ e. k ≢ key_of e) ds
        → All (Free w) ds
        → All (Free w') ds
    All-Free-Others k w w' [] others apart free = tt
    All-Free-Others k w w' (d ∷ ds) others (differs, apart) (f, free) = (
      rw (others (key_of d) (λ e. differs (sym e))) f,
      All-Free-Others k w w' ds others apart free,
    )

    Synced-same :
        (w w' : K.World) (d d' : DestinationStatus)
        → IsSame d' d
        → view w' (key_of d) ≡ view w (key_of d)
        → IsSynced w d'
        → IsSynced w' d'
    Synced-same w w' d d' same kept synced =
        let e : key_of d' ≡ key_of d = ground arith in
        (subst (IsNoted K gvk view src d') (sym (rw e kept)) synced.0, synced.1)

    loop_skips :
        (template : Object K) (remnants ds ds' : List DestinationStatus) (d : DestinationStatus)
        (p p' : Progress) (s : Env K)
        → is_remnant remnants d ≡ true
        → (upsert_loop K gvk src template remnants ds p s).0 ≡ ok (ds', p')
        → upsert_loop K gvk src template remnants (d ∷ ds) p s
          ≡ (ok (d ∷ ds', p'), (upsert_loop K gvk src template remnants ds p s).1)
    unfolding upsert_loop
    loop_skips template remnants ds ds' d p p' s skipped done = ground arith

    loop_runs :
        (template : Object K) (remnants ds ds' : List DestinationStatus) (d d' : DestinationStatus)
        (p p1 p2 : Progress) (s : Env K)
        → is_remnant remnants d ≡ false
        → (tried template d p s).0 ≡ ok (d', p1)
        → (upsert_loop K gvk src template remnants ds p1 (tried template d p s).1).0 ≡ ok (ds', p2)
        → upsert_loop K gvk src template remnants (d ∷ ds) p s ≡ (
          ok (d' ∷ ds', p2),
          (upsert_loop K gvk src template remnants ds p1 (tried template d p s).1).1,
        )
    unfolding upsert_loop
    loop_runs template remnants ds ds' d d' p p1 p2 s wanted first rest = ground arith

    template-IsFor :
        (template : Object K) (d : DestinationStatus)
        → template.metadata.deletion_timestamp ≡ none
        → IsFor K gvk view src (destination_template K template d) d
    unfolding destination_template
    template-IsFor template d stays = record { name = refl; stays = stays }

    expected_skips :
        (remnants ds : List DestinationStatus) (d : DestinationStatus)
        → (is_remnant remnants d ≡ true
            → expected_success remnants (d ∷ ds) ≡ expected_success remnants ds)
          × (is_remnant remnants d ≡ false
              → expected_success remnants (d ∷ ds) ≡ expected_success remnants ds + 1)
    unfolding expected_success
    expected_skips remnants ds d = (λ h. ground arith, λ h. ground arith)

    Settles-skips :
        (d : DestinationStatus) (p : Progress) (remnants ds ds' : List DestinationStatus)
        (w : K.World) (t : Env K) (p' : Progress)
        → is_remnant remnants d ≡ true
        → Settles w remnants ds p (ok (ds', p'), t)
        → Settles w remnants (d ∷ ds) p (ok (d ∷ ds', p'), t)
    Settles-skips d p remnants ds ds' w t p' skipped (counts, expects, settled, others) = (
      ground (arith, expected_skips remnants ds d),
      ground (arith, expected_skips remnants ds d, expected_skips remnants ds' d),
      (inl skipped, settled),
      λ j (other, apart). others j apart,
    )

    Settles-runs :
        (d d' : DestinationStatus) (p p1 p2 : Progress) (remnants ds ds' : List DestinationStatus)
        (w : K.World) (s t : Env K)
        → is_remnant remnants d ≡ false
        → All (λ e. key_of d ≢ key_of e) ds
        → Brought K gvk view src w d p (ok (d', p1), s)
        → Settles s.world remnants ds p1 (ok (ds', p2), t)
        → Settles w remnants (d ∷ ds) p (ok (d' ∷ ds', p2), t)
    Settles-runs d d' p p1 p2 remnants ds ds' w s t wanted apart (adds, same, synced, before)
          (counts, expects, settled, others) =
        (
          ground (arith, expected_skips remnants ds d),
          ground (
            arith,
            same_remnant remnants d' d same,
            expected_skips remnants ds d,
            expected_skips remnants ds' d',
          ),
          (inr (Synced-same s.world t.world d d' same (others (key_of d) apart) synced), settled),
          λ j (other, away). others j away ∙ before j other,
        )

    -- If no copy is being deleted, the loop settles all destinations.
    pub upsert_loop-Settles :
        (template : Object K) (remnants ds : List DestinationStatus) (p : Progress) (s : Env K)
        → template.metadata.deletion_timestamp ≡ none
        → AreDistinct ds
        → All (Free s.world) ds
        → Settles s.world remnants ds p (upsert_loop K gvk src template remnants ds p s)
    unfolding upsert_loop expected_success
    upsert_loop-Settles template remnants [] p s stays distinct free =
        (ground arith, refl, tt, λ j apart. refl)
    upsert_loop-Settles template remnants (d ∷ ds) p s stays (apart, distinct) (f, free) =
        elim (Bool-cases (is_remnant remnants d)) [
          | inl skipped ↦
              let later = upsert_loop K gvk src template remnants ds p s in
              let settles = upsert_loop-Settles template remnants ds p s stays distinct free in
              elim (Result-cases later.0) [
                | inr (e, failed) ↦
                    absurd (subst (λ r. Settles s.world remnants ds p (r, later.1)) failed settles)
                | inl ((ds', p'), done) ↦
                    rw (loop_skips template remnants ds ds' d p p' s skipped done) (
                      Settles-skips d p remnants ds ds' s.world later.1 p' skipped
                        (subst (λ r. Settles s.world remnants ds p (r, later.1)) done settles))
              ]
          | inr wanted ↦
              let first = tried template d p s in
              let brought =
                run-Brought K gvk view src stores (destination_template K template d) d p s
                  (template-IsFor template d stays) f in
              elim (Result-cases first.0) [
                | inr (e, failed) ↦ absurd (rw failed at brought)
                | inl ((d', p1), done) ↦
                    let b : Brought K gvk view src s.world d p (ok (d', p1), first.1) =
                      rw done at brought in
                    let free' =
                      All-Free-Others (key_of d) s.world first.1.world ds b.3 apart free in
                    let later = upsert_loop K gvk src template remnants ds p1 first.1 in
                    let settles =
                      upsert_loop-Settles template remnants ds p1 first.1 stays distinct free' in
                    elim (Result-cases later.0) [
                      | inr (e, failed) ↦ absurd (
                          subst (λ r. Settles first.1.world remnants ds p1 (r, later.1)) failed
                            settles)
                      | inl ((ds', p2), done') ↦
                          rw (loop_runs template remnants ds ds' d d' p p1 p2 s wanted done done') (
                            Settles-runs d d' p p1 p2 remnants ds ds' s.world first.1 later.1 wanted
                              apart b
                              (subst (λ r. Settles first.1.world remnants ds p1 (r, later.1)) done'
                                settles))
                    ]
              ]
        ]
