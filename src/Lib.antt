-- ===== src/Lib.antt =====
-- Wadjit: a Go library that watches HTTP and WebSocket endpoints.
--
-- The program's parts. A Wadjit (wadjit.go) schedules watchers (watcher.go); each watcher has tasks, which
-- are HTTP or WebSocket endpoints (task.go, task_http.go, task_ws.go) and send their responses
-- (response.go, timing.go) to a channel. An HTTP endpoint owns a DNS policy manager
-- (dns_policy_manager.go), which applies the endpoint's policy (dns_policy.go): for each request it
-- chooses the address to dial, with the help of a resolver (dns_resolver.go), and it watches the results
-- of the requests by a guard rail, which can close idle connections and demand a lookup.
--
-- What is modelled, file by file:
-- Prelude: shared names, Boolean tests, signed integers, lists. Clock: Go's time package. Header: HTTP
-- headers. GoError: error values, errors.Join and errors.Is. Run: calls that may panic.
-- Dns/Address, Dns/Policy: dns_policy.go, with the addresses of netip.
-- Dns/Manager: the state of dnsPolicyManager. Dns/Guard: observeResult, registerGuardFailure, resetGuard
-- and consumeGuardTrigger. Dns/Lookup: lookup. Dns/Resolve: resolveSingle, resolveTTL and resolveCadence
-- in children of those names, and resolve in Modes. Dns/Request: prepareRequest, dialContext and
-- RoundTrip.
-- Dns/Interleaving: the critical sections of concurrent requests in each mode as steps.
-- Dns/Resolver: dns_resolver.go, over a record of what the network and the DNS library give.
-- Timing: traceTimes with its Snapshot, TimeDataFromTimestamps and timedReadCloser of timing.go.
-- Response: httpTaskResponse, wsTaskResponse and httpTaskResponseError of response.go, and in
-- Response/Watcher WatcherResponse, in Response/Text the text of the metadata.
-- Watcher: Validate, NewWatcher, start, close and job of watcher.go, over any type of tasks with the
-- operations of task.go.
-- Http: HTTPEndpoint of task_http.go, in Http/Endpoint its state, options, Validate and Initialize, in
-- Http/Trace traceRequest, in Http/Execute Task and Execute, in Http/Sequence many executions.
-- Ws: WSEndpoint of task_ws.go, in Ws/Endpoint its state and mutex, in Ws/Connection connecting,
-- reconnecting, Initialize and Close, in Ws/Pump the read pump, in Ws/OneHit and Ws/Persistent the
-- executions, over the JSON-RPC library as a record, Ws/JsonRpc; Ws/Inflight orders the critical
-- sections of the calls in any way, of which Ws/Sections makes up an execution, and Ws/Races takes the
-- calls apart where the mutex is not held. Outcome: calls that may wait for ever.
-- Wadjit: wadjit.go, in Wadjit/Options the options, in Wadjit/Tasks the default DNS policy, in
-- Wadjit/Registry and Wadjit/Manager the methods over a task manager as a record, in Wadjit/Closing Close
-- with its wait, in Wadjit/Nil AddWatcher and AddWatchers of watchers with nil tasks, in Wadjit/Channels
-- the channels and listenForResponses, which Wadjit/Pump interleaves with the tasks, the caller and Close
-- as a step relation, in Wadjit/Endpoints and Wadjit/Sockets a Wadjit that runs HTTP and WebSocket
-- endpoints; Wadjit/Races takes an AddWatcher apart; Wadjit/Answers follows the responses of HTTP
-- endpoints, executed in the order of Http/Sequence, to the caller.
-- Examples: concrete values, at which the theorems are applied and the definitions run.
--
-- How the model corresponds to the code. A method that mutates its receiver returns the new record. The
-- clock is an argument. The number of a moment names the state of the outside at which a resolver is
-- asked. Calls of the decision hook, waits for a lookup and CloseIdleConnections are listed as effects.
-- What a library, the network or the clock gives to a call is an argument of the call. A lock that is
-- held, a nil channel and a goroutine that has not ended make a call block. Responses that are sent,
-- messages that are written and connections that are closed are listed. An index out of range is a panic.
-- Times and the manager's count are unbounded integers; a difference of times is cut to 64 bits, as in Go.
-- Texts that are made of an address and a port are kept as the pair. No function takes fuel: each loop
-- runs over a list.
--
-- What is not modelled: an interleaving of what a WebSocket endpoint does within one critical section or
-- one step of its read pump; what a step of an endpoint leaves that waits for ever, except for an
-- execution whose write has failed; which connection a read pump reads; calls of Data, Reader and Close of
-- one response that overlap, beyond the store in Reader; methods of tasks and of the task manager that
-- panic or wait for ever, except for nil tasks in AddWatcher; when a coalesced lookup began; executions of
-- one HTTP endpoint that overlap, beyond the critical sections of its manager; that an execution waits
-- while the channel that it sends to is full; the redirects of the HTTP client, which the client does on
-- its own; the close message that a one-hit execution sends, whose error is dropped; the group of
-- coalesced lookups beyond the result that it delivers; the monotonic clock; two tasks of a watcher that
-- are the same object; and the files that are not named above, among them the example program, which only
-- calls the library and prints.
mod Prelude
pub mod Clock
pub mod Header
pub mod GoError
pub mod Run
pub mod Dns
pub mod Timing
pub mod Response
pub mod Watcher
pub mod Outcome
pub mod Http
pub mod Ws
pub mod Wadjit
mod Examples
