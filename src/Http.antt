-- ===== src/Http.antt =====
-- `HTTPEndpoint` of task_http.go: a task that sends an HTTP request, over a client whose transport asks
-- the endpoint's DNS policy manager for the address to dial.
pub mod Endpoint
pub mod Trace
pub mod Execute
pub mod Ready
pub mod Answers
pub mod Sequence
