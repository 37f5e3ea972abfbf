-- ===== src/Lib.antt =====
-- Verification of the Kubernetes object syncer: an operator that copies a source object to the
-- destinations an `ObjectSync` resource asks for, keeps the copies up to date, and deletes them.
--
-- The program and its model
--
-- - rustrial-k8s-object-syncer-apis/src/lib.rs: the resource types. Api.Types has the structs and
--   enums with the source's fields; Api.Destination has `applies_to` and the other methods on
--   destinations and references; Api.Status has conditions and the status; Api.Status.Order has the
--   order by which destinations are sorted.
-- - rustrial-k8s-object-syncer/src/errors.rs: Errors has the error classes, `is_temporary` and the
--   messages.
-- - rustrial-k8s-object-syncer/src/utils.rs: Utils.Names has the references between objects,
--   Utils.Finalizers has `add_finalizer_if_missing` and `remove_finalizer`, and Utils.Deletion has
--   `delete_destinations` with its loop.
-- - rustrial-k8s-object-syncer/src/object_sync_modifications.rs: Modifications has an `ObjectSync`
--   as it was read and as it is changed. A method that takes `&mut self` is an action on a
--   `Session`, which holds the modifications beside the environment.
-- - rustrial-k8s-object-syncer/src/resource_controller.rs: ResourceController has one child for each
--   method of `ResourceControllerImpl`: Expected (`expected_destinations`), Template and Upsert
--   (`upsert_destinations`), Source (`reconcile_source`), Registry (`register` and the drop of a
--   handle), Lookup (`lookup_object_syncs_for_source`), Reconcile (`reconcile`, `error_policy`),
--   Watch (the mappers of `start`) and Start (`api`, and the rest of `start`).
-- - rustrial-k8s-object-syncer/src/object_sync_controller.rs: ObjectSyncController.Cleanup has
--   `delete_destinations`, which the resource controller calls as well; Discovery has
--   `get_api_resource` and `get_gvk`; Registry has the two maps with `add`, `remove` and
--   `source_changed`; Reconcile has `check`, `delete`, `reconcile` and `error_policy`; Interleaving
--   has the sections of `check`, `add`, `remove` and `delete` under a lock of the maps as steps of
--   the reconciliations of different objects, with the phases that a run may enter as a parameter
--   (IsTested leaves out that a removed instance is added again for the same kind and source, which
--   `check` rules out by a test that it does not repeat); Start has what `start` does with the outcome of a
--   reconciliation.
-- - rustrial-k8s-object-syncer/src/main.rs: Configuration has `Configuration::new`, with the reading of
--   the namespace variables and `env_var`; Startup has `main`.
-- - rustrial-k8s-object-syncer/src/prometheus_exporter.rs: Metrics has the answer to a request and the
--   loop over connections.
--
-- Base has the shared helpers on lists, association lists, numerals, comparison and effects, and Kube
-- the interface to the server and to the runtime. Tests has concrete objects and the theorems at them.
--
-- A change of an `ObjectSync` leads to `reconcile` of its controller, which discovers the kind of
-- the source and registers the `ObjectSync` with the resource controller of that kind, or deletes
-- all copies of an `ObjectSync` that goes. A watched event of a source leads to `reconcile` of the
-- resource controller. It looks up the `ObjectSync` objects that govern the source, and for each
-- calls `reconcile_source`, which plans the copies, deletes stale ones, stores the plan in the
-- status, and only then writes copies. If the source is being deleted, `delete_destinations` of
-- the other controller runs for each of them.
--
-- How effects are modelled
--
-- The server is not part of the repository. The record Kube of Kube.Server has its operations, and
-- those of the serialisation library, as parameters of the model: they may fail or change the
-- world in any way at any call, but where a theorem has a hypothesis on them, which says what the
-- server does: Steady, KeepsObject and Accepts speak of answers to deletions, to a replaced
-- status, and to reads and writes; InSync and Refuses describe a server at which all copies are in
-- sync, and one that creates none. Reads, Stores and Deletes of Kube.Storing describe a server
-- that answers what it stores, stores what it is sent, and deletes what has no finalizers, while
-- no other party acts. Kube.Client wraps each operation and notes the request with its answer in
-- the trace `calls`, newest first, with the object that a read has shown. A deletion is answered
-- either by an object whose deletion has begun or by the word that it is finished. Fallible code is a state action with a Result (Base.Effects);
-- an action that fails keeps the state it has reached. Tests.Cluster is a concrete server on which
-- the tests run.
--
-- The retry loop of `upsert_destinations` recurses on the code's own counter of three attempts, the
-- other loops on their lists, so no fuel is added. Decimal numerals recurse on the number itself as
-- a bound, which is at least the count of its digits. Times are natural numbers of seconds, and the
-- comparison `now - created < bound` is written as `now < created + bound`, which is what the signed
-- subtraction means. Hash maps are association lists and hash sets are lists without duplicates, in
-- one order of the many that the program may see. Managed fields and owner references are only ever
-- cleared, so their contents are texts.
--
-- What is not modelled
--
-- Logging and metrics are pure I/O, and so are the clients and servers of the libraries; `main`
-- runs over parameters for them (Host of Startup), and notes what it has done. The generation of
-- the custom resource definition prints what a library derives. The event streams, queues and
-- caches belong to the runtime library; the mappers that the program hands to it are modelled. A
-- lock is not part of the state, since each critical section is one function on the map. The
-- runtime handles one event of an object at a time; in Interleaving the reconciliations of
-- different objects alternate after each section, and in the other modules each reconciliation
-- runs through. Strings are trimmed of the code points that Unicode calls white space. The
-- registry refers to resource controllers by numbers: a weak reference can be upgraded while an
-- instance with that number is in the map or held by the caller, and the last reference to a
-- handle is dropped by an explicit step where the source's scope ends; the messages by which it
-- makes them reconcile are noted.
pub mod Base
pub mod Kube
pub mod Api
pub mod Configuration
pub mod Errors
pub mod Utils
pub mod Modifications
pub mod ResourceController
pub mod ObjectSyncController
pub mod Startup
pub mod Metrics
mod Tests
