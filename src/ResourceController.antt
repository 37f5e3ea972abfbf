-- ===== src/ResourceController.antt =====
-- rustrial-k8s-object-syncer/src/resource_controller.rs
pub mod Expected
pub mod Template
pub mod Upsert
pub mod Source
pub mod Registry
pub mod Lookup
pub mod Reconcile
pub mod Start
pub mod Watch
