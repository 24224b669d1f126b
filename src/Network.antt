-- ===== src/Network.antt =====
-- The network layer, zerosugar/shared/network: reference-counted fragments, buffers made of them,
-- and the loop that cuts packets out of what a session receives.
pub mod Memory
pub mod Fragment
pub mod Buffer
pub mod Receive
