-- ===== src/Tests.antt =====
-- A small concrete cluster, and the theorems at concrete inputs.
mod Cluster
mod Samples
mod ApiTests
mod DeletionTests
mod TargetTests
mod UpsertTests
mod ConvergesTests
mod ClearsTests
mod SourceTests
mod WatchTests
mod ControllerTests
mod IdleTests
mod ReachedTests
mod InterleavingTests
mod OrderTests
mod ConfigurationTests
mod StartupTests
