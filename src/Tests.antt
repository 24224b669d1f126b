-- ===== src/Tests.antt =====
-- Concrete runs of the models.
mod Buffer
mod Io
mod Session
mod Bag
mod Monster
mod Balance
mod Ids
mod Schedule
mod Nodes
mod Commands
mod Accounts
