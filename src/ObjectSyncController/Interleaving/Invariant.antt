-- ===== src/ObjectSyncController/Interleaving/Invariant.antt =====
-- What holds of the maps and of each reconciliation, wherever the reconciliations stand.
use k8s_object_syncer.Base.{
  ℕ, ◌<◌, nat_eq, string_eq, Bool, true, false, ◌||◌, ◌&&◌, ◌==◌, ◌≡◌, ◌≢◌, ◌⊎◌, Option, none, some,
}
use k8s_object_syncer.Base.Dict
use k8s_object_syncer.Kube.Meta.{GroupVersionKind, gvk_eq}
use k8s_object_syncer.Utils.Names.{SourceRef, ObjectSyncRef, name_eq}
use k8s_object_syncer.ObjectSyncController.Registry.{Registry, ObjectSyncInstance}
use k8s_object_syncer.ObjectSyncController.Registry.Coherence.{holds, Coherent}
use k8s_object_syncer.ObjectSyncController.Interleaving.{
  Phase, idle, holding, removed, obtained, registered, inserted, System,
}

-- A clone of an instance of the object that need not stand in the map any more.
pub record IsClone (r : Registry) (k : ObjectSyncRef) (i : ObjectSyncInstance) : Type 0 where
  pub own : i.resource_controller_handle.crd ≡ k
  pub given : i.resource_controller < r.next
  pub serves :
      (g : GroupVersionKind)
      → Dict.lookup g r.resource_controllers ≡ some i.resource_controller
      → i.gvk ≡ g

abbrev pub IsOptionalClone : Registry → ObjectSyncRef → Option ObjectSyncInstance → Type 0
IsOptionalClone r k none = Unit
IsOptionalClone r k (some i) = IsClone r k i

-- The controller and the source are not both those of the clone.
abbrev pub Differs : Option ObjectSyncInstance → ℕ → SourceRef → Type 0
Differs none id src = Unit
Differs (some i) id src = (i.resource_controller ≢ id) ⊎ (i.resource_controller_handle.src ≢ src)

-- What a reconciliation may rely on where it stands.
abbrev pub Fine : Registry → ObjectSyncRef → Phase → Type 0
Fine r k idle = Unit
Fine r k (holding i) = Dict.lookup k r.instances ≡ some i
Fine r k (removed i) = IsClone r k i × (Dict.lookup k r.instances ≡ none)
Fine r k (obtained held id src gvk) =
    IsOptionalClone r k held
    × (Dict.lookup k r.instances ≡ none)
    × (Dict.lookup gvk r.resource_controllers ≡ some id)
    × Differs held id src
Fine r k (registered held id src gvk) =
    IsOptionalClone r k held
    × (Dict.lookup k r.instances ≡ none)
    × (Dict.lookup gvk r.resource_controllers ≡ some id)
    × Differs held id src
    × (holds r id src k ≡ true)
Fine r k (inserted i) =
    IsClone r k i
    × ((j : ObjectSyncInstance)
        → Dict.lookup k r.instances ≡ some j
        → Differs (some i) j.resource_controller j.resource_controller_handle.src)

-- The instance stands for the registration.
abbrev pub matches : Option ObjectSyncInstance → ℕ → SourceRef → Bool
matches none id src = false
matches (some i) id src = i.resource_controller == id && i.resource_controller_handle.src == src

-- A reconciliation that is under way stands for the registration.
abbrev pub claims : Phase → ℕ → SourceRef → Bool
claims idle id src = false
claims (holding i) id src = false
claims (removed i) id src = matches (some i) id src
claims (obtained held own own_src gvk) id src = matches held id src
claims (registered held own own_src gvk) id src =
    (own == id && own_src == src) || matches held id src
claims (inserted i) id src = matches (some i) id src

-- The maps agree, each reconciliation finds what it relies on, and nothing is registered but what
-- an instance or a reconciliation stands for.
pub record IsConsistent (s : System) : Type 0 where
  pub coherent : Coherent s.registry
  pub fine : (k : ObjectSyncRef) → Fine s.registry k (s.task k)
  pub explained :
      (k : ObjectSyncRef) (id : ℕ) (src : SourceRef)
      → holds s.registry id src k ≡ true
      → (matches (Dict.lookup k s.registry.instances) id src || claims (s.task k) id src) ≡ true
