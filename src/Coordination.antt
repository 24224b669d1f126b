-- ===== src/Coordination.antt =====
-- The coordination service: zerosugar/xr/service/coordination.
pub mod LoadBalancer
pub mod Nodes
pub mod Commands
