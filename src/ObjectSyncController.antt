-- ===== src/ObjectSyncController.antt =====
-- rustrial-k8s-object-syncer/src/object_sync_controller.rs
pub mod Cleanup
pub mod Discovery
pub mod Registry
pub mod Interleaving
pub mod Reconcile
pub mod Start
