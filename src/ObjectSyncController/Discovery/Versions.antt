-- ===== src/ObjectSyncController/Discovery/Versions.antt =====
-- What a source of a wanted version is resolved to.
use mathlib.Core.Path.{subst}
use k8s_object_syncer.Base.{
  String, string_eq, Bool, true, ◌≡◌, inl, inr, some, List, [], ◌∷◌, find, In, ok, arith,
  Option-cases, Result-cases,
}
use k8s_object_syncer.Kube.Meta.{GroupVersionKind, ApiResource}
use k8s_object_syncer.Kube.Server.{Kube, Scope}
use k8s_object_syncer.Kube.Client.{Env}
use k8s_object_syncer.Api.Types.{SourceObject}
use k8s_object_syncer.ObjectSyncController.Discovery.{
  is_version, namespaced_only, pick_resource, get_api_resource, get_gvk,
}

In-find :
    {A : Type 0} (P : A → Bool) (l : List A) (x : A) → find P l ≡ some x → In x l × (P x ≡ true)
In-find P [] x h = ground arith
In-find P (y ∷ l) x h = ground (arith, In-find P l x)

abbrev resource_gvk : ApiResource → GroupVersionKind
resource_gvk r = record { group = r.group; version = r.version; kind = r.kind }

module _ (K : Kube) where
  -- If the kind of a source with a wanted version is resolved, then the answer of the discovery
  -- lists the resource, which lives in namespaces and has the kind and the version of the source.
  pub get_gvk-Scope :
      (source : SourceObject) (version : String) (s : Env K) (gvk : GroupVersionKind)
      → source.version ≡ some version
      → (get_gvk K source s).0 ≡ ok gvk
      → (gvk.kind ≡ source.kind)
        × (gvk.version ≡ version)
        × (g : K.ApiGroup) × ((K.group source.group s.world).0 ≡ ok g)
        × In
            (record { group = gvk.group; version = gvk.version; kind = gvk.kind }, Scope.namespaced)
            (K.recommended_resources g)
  unfolding get_gvk get_api_resource pick_resource namespaced_only
  get_gvk-Scope source version s gvk wanted h =
      elim (Result-cases (K.group source.group s.world).0) [
        | inr (e, failed) ↦ ground arith
        | inl (g, answered) ↦
            let l = K.recommended_resources g in
            let P = λ (x : ApiResource × Scope). is_version source.kind version x.0 in
            elim (Option-cases (find P l)) [
              | inl missing ↦ ground arith
              | inr ((r, Scope.cluster), found) ↦ ground arith
              | inr ((r, Scope.namespaced), found) ↦
                  let same : resource_gvk r ≡ gvk = ground arith in
                  (
                    ground (arith, In-find P l (r, Scope.namespaced)),
                    ground (arith, In-find P l (r, Scope.namespaced)),
                    g,
                    answered,
                    subst
                        (λ (v : GroupVersionKind).
                          In
                            (
                              record { group = v.group; version = v.version; kind = v.kind },
                              Scope.namespaced,
                            )
                            l)
                        same (In-find P l (r, Scope.namespaced) found).0,
                  )
            ]
      ]
