-- ===== src/Cluster.antt =====
-- The change feed of the cluster.
pub mod ChangeLog
mod Examples
