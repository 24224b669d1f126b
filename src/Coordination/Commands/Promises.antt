-- ===== src/Coordination/Commands/Promises.antt =====
-- What becomes of the promises of zerosugar/xr/service/coordination/node/game_server.cpp.
