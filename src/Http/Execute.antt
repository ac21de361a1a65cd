-- ===== src/Http/Execute.antt =====
-- `Task` and `Execute` of an `HTTPEndpoint` (task_http.go).
use wadjit.Prelude.{
  ℕ, String, Bool, Option, none, some, List, [], ◌∷◌, if◌then◌else◌, ◌⊎◌, inl, inr, ℤ, pos,
}
use wadjit.Clock.{Time}
use wadjit.GoError.{GoError}
use wadjit.Outcome.{Outcome, finishes, crashes, blocks}
use wadjit.Dns.Policy.{DnsDecision}
use wadjit.Dns.Manager.{DnsPolicyManager}
use wadjit.Dns.Guard.{observe_result}
use wadjit.Response.{Body, HttpTaskResponse, new_http_task_response, read_body}
use wadjit.Response.Watcher.{WatcherResponse, http_response, error_response, failed_response}
use wadjit.Header.{HttpHeader, header_lines}
use wadjit.Http.Endpoint.{HttpUrl, HttpEndpoint}
use wadjit.Http.Trace.{TraceEvent, TraceTimes, trace_request, no_trace, snapshot}

-- `httpRequest` keeps what the endpoint had when `Task` was called, and shares the endpoint.
pub record HttpRequest : Type 0 where
  pub resp_chan : Option ℕ
  pub body_bytes : List ℕ
  pub method : String

abbrev pub task : HttpEndpoint → HttpRequest
task e = record { resp_chan = e.resp_chan; body_bytes = e.payload; method = e.method }

-- An `http.Response`. The decision is the one in the context of the request that was sent.
pub record HttpReply : Type 0 where
  pub status_code : ℤ
  pub header : HttpHeader
  pub content_length : ℤ
  pub body : Option Body
  pub decision : Option DnsDecision

-- What the HTTP library and the clock give to one execution: the error of `NewRequest`, what the round
-- trips of `Do` leave of the manager, the result of `Do`, the callbacks of the trace, whether an
-- address arrives in time, and the times of the observation and of the body's end.
pub record HttpCalls : Type 0 where
  pub new_request_err : Option GoError
  pub round_trips : DnsPolicyManager → DnsPolicyManager
  pub result : HttpReply ⊎ GoError
  pub trace : List (TraceEvent × Time)
  pub in_time : Bool
  pub observed_at : Time
  pub read_at : Time

-- A request that the client is given: its method, URL and body, and its header line by line.
pub record Requested : Type 0 where
  pub method : String
  pub url : String
  pub body_bytes : List ℕ
  pub header_lines : List (String × String)

-- What an execution leaves.
pub record HttpStep : Type 0 where
  pub endpoint : HttpEndpoint
  pub requested : List Requested
  pub sent : List WatcherResponse
  pub err : Option GoError

header_of : Option HttpHeader → HttpHeader
header_of none = []
header_of (some h) = h

requested_by : HttpRequest → HttpUrl → HttpEndpoint → Requested
unfolding header_lines header_of
requested_by r u e = record {
  method = r.method;
  url = u.text;
  body_bytes = r.body_bytes;
  header_lines = header_lines (header_of e.header);
}

-- A send on a nil channel blocks for ever. The receiver is taken to make room in the channel.
send_on :
    HttpRequest
    → List Requested
    → WatcherResponse
    → Option GoError
    → HttpEndpoint
    → Outcome HttpStep
send_on r requested response err e = elim r.resp_chan [
  | none ↦ blocks
  | some c ↦
      finishes (record { endpoint = e; requested = requested; sent = response ∷ []; err = err })
]

-- The response to a failed request: with the manager's last decision, if it keeps one.
failure_response : GoError → String → HttpEndpoint → Option DnsPolicyManager → WatcherResponse
unfolding error_response
failure_response err url e none = error_response err e.id e.watcher_id url
failure_response err url e (some m) = elim m.last_decision [
  | none ↦ error_response err e.id e.watcher_id url
  | some d ↦ failed_response err e.id e.watcher_id url d
]

observed : Time → ℤ → Option GoError → Option DnsPolicyManager → Option DnsPolicyManager
unfolding observe_result
observed now status err none = none
observed now status err (some m) = some (observe_result now status err m)

arrived_addr : Bool → TraceTimes → Option String
arrived_addr in_time s = if in_time then elim s.addr_chan [ none ↦ none | some a ↦ a ] else none

task_response : HttpCalls → Bool → HttpReply → HttpTaskResponse
unfolding arrived_addr trace_request read_body
task_response c read_fast reply =
    let s = trace_request c.trace no_trace in
    let h : HttpTaskResponse =
      record (new_http_task_response (arrived_addr c.in_time s) reply.status_code reply.header
        reply.content_length reply.body reply.decision) { timestamps = snapshot s } in
    if read_fast then read_body c.read_at h else h

done_with : HttpRequest → HttpCalls → HttpUrl → HttpEndpoint → Outcome HttpStep
unfolding requested_by send_on failure_response observed task_response
done_with r c u e = elim c.result [
  | inr err ↦
      let mgr = observed c.observed_at (pos 0) (some err) e.dns_mgr in
      send_on r (requested_by r u e ∷ []) (failure_response err u.text e mgr) (some err)
        (record e { dns_mgr = mgr })
  | inl reply ↦
      send_on r (requested_by r u e ∷ [])
        (record {
          task_id = e.id;
          watcher_id = e.watcher_id;
          url = u.text;
          err = none;
          payload = some (http_response (task_response c e.opt_read_fast reply));
        })
        none (record e { dns_mgr = observed c.observed_at reply.status_code none e.dns_mgr })
]

round_tripped : HttpCalls → Option DnsPolicyManager → Option DnsPolicyManager
round_tripped c none = none
round_tripped c (some m) = some (c.round_trips m)

-- `Do` of a nil client panics.
unfoldable pub execute_http : HttpRequest → HttpCalls → HttpEndpoint → Outcome HttpStep
unfolding send_on error_response done_with round_tripped
execute_http r c e = elim e.url [
  | none ↦ crashes
  | some u ↦ elim c.new_request_err [
    | some err ↦ send_on r [] (error_response err e.id e.watcher_id u.text) (some err) e
    | none ↦ elim e.client [
      | none ↦ crashes
      | some client ↦ done_with r c u (record e { dns_mgr = round_tripped c e.dns_mgr })
    ]
  ]
]
