-- ===== src/Cluster.antt =====
-- internal/cluster: the lock service of the nodes and the circuit breakers between them.
pub mod Token
pub mod LockTable
pub mod Coordinator
pub mod Breaker
pub mod Grid
pub mod Rpc
mod Examples
