-- ===== src/ObjectSyncController/Registry.antt =====
-- The two maps of the `ObjectSync` controller. The resource controllers live in a store, by a
-- number for each; the map of controllers refers to them weakly, and an instance holds its
-- controller and its handle. A controller lives as long as an instance holds it.
pub mod Coherence
pub mod Moves
use mathlib.Core.Option.{get_or}
use k8s_object_syncer.Base.{
  ℕ, ◌+◌, nat_eq, string_eq, Bool, false, List, [], ◌∷◌, not, ◌||◌, ◌==◌, Option, none, some, any,
  if◌then◌else◌,
}
use k8s_object_syncer.Base.Dict
use k8s_object_syncer.Base.Dict.{Dict}
use k8s_object_syncer.Kube.Meta.{GroupVersionKind, gvk_eq}
use k8s_object_syncer.Api.Types.{ObjectSync}
use k8s_object_syncer.Api.Destination.{source_namespace}
use k8s_object_syncer.Utils.Names.{SourceRef, ObjectSyncRef, name_eq}
use k8s_object_syncer.ResourceController.Registry.{
  Sources, ObjectSyncHandle, register_source, drop_handle,
}

pub record ObjectSyncInstance : Type 0 where
  pub resource_controller : ℕ
  pub resource_controller_handle : ObjectSyncHandle
  pub gvk : GroupVersionKind

pub record Registry : Type 0 where
  pub sources : Dict ℕ Sources
  pub next : ℕ
  pub resource_controllers : Dict GroupVersionKind ℕ
  pub instances : Dict ObjectSyncRef ObjectSyncInstance
  -- The controllers that were told to reconcile all their objects, the latest first.
  pub reloads : List ℕ

-- `resource_controllers` and `instances` of a new controller.
unfoldable pub empty : Registry
empty = record { sources = []; next = 0; resource_controllers = []; instances = []; reloads = [] }

-- The map of sources that a resource controller shares with the handles.
abbrev pub sources_of : Registry → ℕ → Sources
sources_of r id = get_or (Dict.lookup id r.sources) []

-- `ObjectSyncInstance::source_changed`
unfoldable pub source_changed : ObjectSyncInstance → ObjectSync → GroupVersionKind → Bool
source_changed i new gvk =
    let old_src = i.resource_controller_handle.src in
    not (i.gvk == gvk)
    || not (old_src.name == new.spec.source.name)
    || not (old_src.namespace == get_or (source_namespace new) "")

-- Some instance of the map holds the controller, or a clone that the caller has.
unfoldable pub is_alive : Option ObjectSyncInstance → Registry → ℕ → Bool
is_alive held r id =
    any (λ (k, i). i.resource_controller == id) r.instances
    || elim held [ some i ↦ i.resource_controller == id | none ↦ false ]

-- `controllers.get(&gvk).map(|w| w.upgrade()).flatten()`
unfoldable pub upgrade : Option ObjectSyncInstance → GroupVersionKind → Registry → Option ℕ
unfolding is_alive
upgrade held gvk r = elim (Dict.lookup gvk r.resource_controllers) [
  | none ↦ none
  | some id ↦ if is_alive held r id then some id else none
]

-- A controller is started under the next number.
unfoldable pub started : GroupVersionKind → Registry → Registry
started gvk r = record r {
  sources = Dict.insert r.next [] r.sources;
  next = r.next + 1;
  resource_controllers = Dict.insert gvk r.next r.resource_controllers;
}

-- The controller of the resource, which is started unless it is there.
unfoldable pub obtain : Option ObjectSyncInstance → GroupVersionKind → Registry → ℕ × Registry
unfolding started
obtain held gvk r = elim (upgrade held gvk r) [ some id ↦ (id, r) | none ↦ (r.next, started gvk r) ]

-- `controller.register(event)`: the entry, and the message that triggers a reconciliation.
unfoldable pub register : ℕ → SourceRef → ObjectSyncRef → Registry → Registry
register id src crd r = record r {
  sources = Dict.insert id (register_source src crd (sources_of r id)) r.sources;
  reloads = id ∷ r.reloads;
}

-- The last reference to an instance's handle is gone.
unfoldable pub drop_instance : ObjectSyncInstance → Registry → Registry
drop_instance i r =
    let id = i.resource_controller in
    record r {
      sources =
          Dict.insert id (drop_handle i.resource_controller_handle (sources_of r id)) r.sources;
    }

abbrev pub drop_optional : Option ObjectSyncInstance → Registry → Registry
drop_optional none r = r
drop_optional (some i) r = drop_instance i r

-- `remove`: what is returned still holds the handle.
unfoldable pub remove : ObjectSyncRef → Registry → Option ObjectSyncInstance × Registry
remove crd r = (Dict.lookup crd r.instances, record r { instances = Dict.remove crd r.instances })

abbrev pub instance_of : ℕ → SourceRef → ObjectSyncRef → GroupVersionKind → ObjectSyncInstance
instance_of id src crd gvk = record {
  resource_controller = id;
  resource_controller_handle = record { src = src; crd = crd };
  gvk = gvk;
}

-- `instances.insert(…)`: an instance that was there under the same key is dropped.
unfoldable pub place_instance :
    ℕ → SourceRef → ObjectSyncRef → GroupVersionKind → Registry → Registry
place_instance id src crd gvk r =
    drop_optional (Dict.lookup crd r.instances)
      (record r { instances = Dict.insert crd (instance_of id src crd gvk) r.instances })

-- `add`
unfoldable pub add :
    Option ObjectSyncInstance → SourceRef → ObjectSyncRef → GroupVersionKind → Registry → Registry
unfolding register obtain place_instance
add held src crd gvk r =
    let (id, r1) = obtain held gvk r in place_instance id src crd gvk (register id src crd r1)
