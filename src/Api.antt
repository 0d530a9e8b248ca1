-- ===== src/Api.antt =====
-- src/api: the Kubernetes objects that the controllers read and write.
pub mod Meta
pub mod Replication
pub mod Import
pub mod Policy
pub mod Velero
