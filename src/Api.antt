-- ===== src/Api.antt =====
-- rustrial-k8s-object-syncer-apis/src/lib.rs
pub mod Types
pub mod Destination
pub mod Status
