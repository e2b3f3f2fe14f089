-- ===== src/Cluster.antt =====
-- hub/cluster/cluster_pair.go: the old and the new cluster, and how both are stopped.
pub mod Pair
pub mod Ssher
pub mod Pinger
