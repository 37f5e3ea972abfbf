-- ===== src/ObjectSyncController/Interleaving.antt =====
-- The reconciliations of different `ObjectSync` objects side by side: the sections that `check`,
-- `add`, `remove` and `delete` run under a lock of the two maps are the steps, in any order. The
-- runtime runs one reconciliation of an object at a time.
pub mod Invariant
pub mod Frame
pub mod Frames
pub mod Adding
pub mod Moves
pub mod Reachable
pub mod Runs
pub mod Refines
use k8s_object_syncer.Base.{
  ℕ, nat_eq, string_eq, Bool, true, false, ◌||◌, ◌==◌, ◌≡◌, ◌≢◌, ◌⊎◌, Option, none, some,
  if◌then◌else◌,
}
use k8s_object_syncer.Base.Dict
use k8s_object_syncer.Kube.Meta.{GroupVersionKind, gvk_eq}
use k8s_object_syncer.Utils.Names.{SourceRef, ObjectSyncRef, name_eq}
use k8s_object_syncer.ObjectSyncController.Registry.{
  Registry, ObjectSyncInstance, empty, is_alive, started, register, drop_instance, remove,
  place_instance,
}

-- Where the reconciliation of one object stands, with the clones that it holds there.
pub data Phase : Type 0 where
  -- Between two reconciliations, or before the maps are looked at.
  idle : Phase
  -- `check` has a clone of the instance.
  holding : ObjectSyncInstance → Phase
  -- The instance has been removed from the map; its copies are being deleted.
  removed : ObjectSyncInstance → Phase
  -- `add` has the controller, and then has registered the object with it.
  obtained : Option ObjectSyncInstance → ℕ → SourceRef → GroupVersionKind → Phase
  registered : Option ObjectSyncInstance → ℕ → SourceRef → GroupVersionKind → Phase
  -- The new instance stands in the map, and `check` still has the clone of the old one.
  inserted : ObjectSyncInstance → Phase

pub record System : Type 0 where
  pub registry : Registry
  pub task : ObjectSyncRef → Phase

abbrev optional_has : Option ObjectSyncInstance → ℕ → Bool
optional_has none id = false
optional_has (some i) id = i.resource_controller == id

-- The reconciliation holds a reference to the controller.
abbrev pub keeps : Phase → ℕ → Bool
keeps idle id = false
keeps (holding i) id = i.resource_controller == id
keeps (removed i) id = i.resource_controller == id
keeps (obtained held own src gvk) id = own == id || optional_has held id
keeps (registered held own src gvk) id = own == id || optional_has held id
keeps (inserted i) id = i.resource_controller == id

-- A weak reference to the controller can be upgraded: an instance of the map holds it, or a
-- reconciliation.
abbrev pub IsAlive : System → ℕ → Type 0
IsAlive s id =
    (is_alive none s.registry id ≡ true) ⊎ ((k : ObjectSyncRef) × (keeps (s.task k) id ≡ true))

-- `add` is about to be called: there is no instance, or it has been removed and its copies have
-- been deleted.
abbrev pub IsReady : System → ObjectSyncRef → Option ObjectSyncInstance → Type 0
IsReady s k none = (s.task k ≡ idle) × (Dict.lookup k s.registry.instances ≡ none)
IsReady s k (some i) = s.task k ≡ removed i

-- `add` returns; the clone of the old instance is dropped later, where `check` ends.
abbrev pub after_add : Option ObjectSyncInstance → Phase
after_add none = idle
after_add (some i) = inserted i

-- A step of the reconciliation of one object.
pub data Move (s : System) (k : ObjectSyncRef) : Registry → Phase → Type 0 where
  -- `instances.read().await.get(&id).cloned()`
  look :
      (i : ObjectSyncInstance)
      → s.task k ≡ idle
      → Dict.lookup k s.registry.instances ≡ some i
      → Move s k s.registry (holding i)
  -- The source has not changed.
  leave : (i : ObjectSyncInstance) → s.task k ≡ holding i → Move s k s.registry idle
  -- `remove`
  take :
      (i : ObjectSyncInstance) → s.task k ≡ holding i → Move s k (remove k s.registry).1 (removed i)
  -- The copies cannot be deleted, and the last reference to the handle goes.
  give_up :
      (i : ObjectSyncInstance) → s.task k ≡ removed i → Move s k (drop_instance i s.registry) idle
  -- The map of controllers knows a controller that is alive.
  reuse :
      (held : Option ObjectSyncInstance) (id : ℕ) (src : SourceRef) (gvk : GroupVersionKind)
      → IsReady s k held
      → Dict.lookup gvk s.registry.resource_controllers ≡ some id
      → IsAlive s id
      → Move s k s.registry (obtained held id src gvk)
  -- There is none, and one is started.
  launch :
      (held : Option ObjectSyncInstance) (src : SourceRef) (gvk : GroupVersionKind)
      → IsReady s k held
      → ((id : ℕ) → Dict.lookup gvk s.registry.resource_controllers ≡ some id → ¬ IsAlive s id)
      → Move s k (started gvk s.registry) (obtained held s.registry.next src gvk)
  -- `controller.register(event)`
  enroll :
      (held : Option ObjectSyncInstance) (id : ℕ) (src : SourceRef) (gvk : GroupVersionKind)
      → s.task k ≡ obtained held id src gvk
      → Move s k (register id src k s.registry) (registered held id src gvk)
  -- `instances.insert(…)`
  place :
      (held : Option ObjectSyncInstance) (id : ℕ) (src : SourceRef) (gvk : GroupVersionKind)
      → s.task k ≡ registered held id src gvk
      → Move s k (place_instance id src k gvk s.registry) (after_add held)
  -- The clone of the old instance is dropped.
  discard :
      (i : ObjectSyncInstance) → s.task k ≡ inserted i → Move s k (drop_instance i s.registry) idle
  -- `delete` removes the instance and drops it.
  delete_instance :
      (i : ObjectSyncInstance)
      → s.task k ≡ idle
      → Dict.lookup k s.registry.instances ≡ some i
      → Move s k (drop_instance i (remove k s.registry).1) idle

abbrev pub update : ObjectSyncRef → Phase → (ObjectSyncRef → Phase) → ObjectSyncRef → Phase
update k p task j = if j == k then p else task j

-- A step of one of the reconciliations, to a phase that is allowed.
pub data Step (IsAllowed : Phase → Type 0) (s : System) : System → Type 0 where
  turn :
      (k : ObjectSyncRef) {r : Registry} {p : Phase}
      → Move s k r p
      → IsAllowed p
      → Step IsAllowed s (record { registry = r; task = update k p s.task })

pub data Reach (IsAllowed : Phase → Type 0) : System → Type 0 where
  start : Reach IsAllowed (record { registry = empty; task = λ _. idle })
  later : {s t : System} → Reach IsAllowed s → Step IsAllowed s t → Reach IsAllowed t

-- An instance that was removed is added again only for another kind or another source. `check`
-- tests this before it deletes the copies, and not again before it adds.
abbrev pub IsTested : Phase → Type 0
IsTested (obtained (some i) id src gvk) = (i.gvk ≢ gvk) ⊎ (i.resource_controller_handle.src ≢ src)
IsTested (obtained none id src gvk) = Unit
IsTested idle = Unit
IsTested (holding i) = Unit
IsTested (removed i) = Unit
IsTested (registered held id src gvk) = Unit
IsTested (inserted i) = Unit
