-- ===== src/Utils.antt =====
-- rustrial-k8s-object-syncer/src/utils.rs
pub mod Names
pub mod Finalizers
pub mod Deletion
