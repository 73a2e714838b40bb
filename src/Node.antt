-- ===== src/Node.antt =====
-- src/python_server/server.py: a team node of the cluster.
pub mod Config
pub mod Tree
pub mod Payload
pub mod Servicer
pub mod Counters
pub mod Serve
pub mod Cluster
pub mod Deploy
