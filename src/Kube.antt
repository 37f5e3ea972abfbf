-- ===== src/Kube.antt =====
-- What the program takes from the Kubernetes client libraries: their types, the API server and the
-- JSON functions as parameters, and the actions of the program on them.
pub mod Meta
pub mod Server
pub mod Client
pub mod Writes
pub mod Storing
pub mod Runtime
