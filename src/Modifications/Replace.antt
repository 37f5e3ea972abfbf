-- ===== src/Modifications/Replace.antt =====
-- What `replace_status` asks of the server, and what it leaves in memory.
use k8s_object_syncer.Base.{All, ◌≡◌, refl, ◌⊎◌, inl, inr, true, false, ok, arith, Result-cases}
use k8s_object_syncer.Kube.Server.{Kube}
use k8s_object_syncer.Kube.Client.{Call}
use k8s_object_syncer.Api.Types.{ObjectSync}
use k8s_object_syncer.Kube.Writes.{QuietOr}
use k8s_object_syncer.Modifications.{
  Session, ObjectSyncModifications, api_scope, post_params, status_has_changed, replace_status,
}

module _ (K : Kube) where
  -- After a success either no change of the status was found and the session is as before, or a
  -- change was found and the `ObjectSync` in memory counts as unmodified.
  pub replace_status_confirmed :
      (s : Session K)
      → (replace_status K s).0 ≡ ok tt
      → (status_has_changed K s.event ≡ ok false) × (replace_status K s ≡ (ok tt, s))
        ⊎ (status_has_changed K s.event ≡ ok true)
          × ((replace_status K s).1.event.original ≡ (replace_status K s).1.event.modified)
  unfolding replace_status
  replace_status_confirmed s h = ground arith

  -- The session holds what the server has answered to the replacement of this status, as an
  -- unmodified object; or no change of the status was found, and nothing was sent.
  abbrev pub IsStored : ObjectSyncModifications → ObjectSyncModifications → Type 0
  IsStored planned m =
      ((status_has_changed K planned ≡ ok false) × (m ≡ planned))
      ⊎ ((status_has_changed K planned ≡ ok true)
          × (m.original ≡ m.modified)
          × ((o : ObjectSync) × (w : K.World) × (o.status ≡ planned.modified.status)
              × (o.spec ≡ planned.modified.spec)
              × ((K.replace_sync_status (api_scope planned) (K.name_any o.metadata) post_params o
                    w).0
                  ≡ ok m.modified)))

  replace_status_found :
      (s : Session K) (newest : ObjectSync)
      → (replace_status K s).0 ≡ ok tt
      → status_has_changed K s.event ≡ ok true
      → (K.get_sync_status (api_scope s.event) (K.name_any s.event.modified.metadata) s.env.world).0
        ≡ ok newest
      → IsStored s.event (replace_status K s).1.event
  unfolding replace_status api_scope
  replace_status_found s newest h changed found =
      let m = s.event.modified in
      let o = record m {
        metadata = record m.metadata { resource_version = newest.metadata.resource_version };
      } in
      let w = (K.get_sync_status (api_scope s.event) (K.name_any m.metadata) s.env.world).1 in
      inr (ground arith, ground arith, (o, w, refl, refl, ground arith))

  -- A success means that the status is stored.
  pub replace_status-IsStored :
      (s : Session K)
      → (replace_status K s).0 ≡ ok tt
      → IsStored s.event (replace_status K s).1.event
  unfolding replace_status api_scope
  replace_status-IsStored s h = elim (replace_status_confirmed s h) [
    | inl (same, kept) ↦ inl (same, ground (arith, kept))
    | inr (changed, _) ↦
        elim (Result-cases
          (K.get_sync_status (api_scope s.event) (K.name_any s.event.modified.metadata)
            s.env.world).0) [
              | inr (e, failed) ↦ ground arith
              | inl (newest, found) ↦ replace_status_found s newest h changed found
            ]
  ]

module _ (K : Kube) (R : Call K → Type 0) where
  -- Storing the status writes no dynamic object.
  pub replace_status-Quiet :
      (s : Session K)
      → All (QuietOr K R) s.env.calls
      → All (QuietOr K R) (replace_status K s).1.env.calls
  unfolding replace_status
  replace_status-Quiet s all = ground arith
