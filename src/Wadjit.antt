-- ===== src/Wadjit.antt =====
-- `Wadjit` of wadjit.go: the watchers that it runs, by their identifiers, over a task manager.
pub mod Options
pub mod Tasks
pub mod Registry
pub mod Manager
pub mod Nil
pub mod Closing
pub mod Entries
pub mod Order
pub mod Calls
pub mod Removal
pub mod Races
pub mod Answers
pub mod Channels
pub mod Pump
pub mod Endpoints
pub mod Sockets
pub mod Settings
