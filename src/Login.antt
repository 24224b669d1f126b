-- ===== src/Login.antt =====
-- The login server, zerosugar/xr/server/login: its packets, the states of a session, and the loop
-- that serves one.
pub mod Packet
pub mod Session
pub mod Service
