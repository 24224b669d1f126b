-- ===== src/Scheduler.antt =====
-- The task scheduler of a game instance:
-- zerosugar/xr/server/game/instance/task/game_task_scheduler.cpp. Tasks of one controller run one after
-- another; tasks run side by side when no entity is a target of both.
pub mod Process
pub mod Resources
pub mod Run
pub mod Place
pub mod Valid
pub mod Moves
pub mod Exits
pub mod Births
pub mod Create
pub mod Targets
pub mod Held
pub mod Start
pub mod Loop
pub mod Complete
pub mod Submit
pub mod Control
pub mod Safety
pub mod Fifo
