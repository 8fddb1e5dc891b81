-- ===== src/Cluster.antt =====
-- Replication: internal/cluster. What the Raft library (github.com/hashicorp/raft) does stays outside.
pub mod Fsm
mod Examples
