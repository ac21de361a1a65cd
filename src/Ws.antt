-- ===== src/Ws.antt =====
-- `WSEndpoint` of task_ws.go: a task that sends a message to a WebSocket endpoint, on a connection of its
-- own (`OneHit`) or on one that stays open (`Persistent`), whose answers a read pump receives (`Pump`).
pub mod Endpoint
pub mod JsonRpc
pub mod Connection
pub mod Pump
pub mod OneHit
pub mod Persistent
pub mod Task
pub mod Answers
pub mod Restoring
pub mod Shutdown
pub mod Races
pub mod Ready
pub mod Inflight
pub mod Sections
pub mod Hits
