-- ===== src/Http/Answers.antt =====
-- What an execution of an HTTP endpoint sends, and what the manager learns from it.
use wadjit.Prelude.{
  ◌≡◌, true, false, Option, none, some, List, [], ◌∷◌, inl, inr, arith, is_some, ℤ, pos, str_eq,
  non_empty,
}
use wadjit.Clock.{Time}
use wadjit.GoError.{GoError}
use wadjit.Response.{dns_metadata}
use wadjit.Outcome.{Finishes}
use wadjit.Run.{returns, Returns-eq}
use wadjit.Dns.Policy.{fallback_enabled}
use wadjit.Dns.Lookup.{lookup}
use wadjit.Dns.Manager.{DnsPolicyManager, RequestContext}
use wadjit.Dns.Guard.{observe_result}
use wadjit.Dns.Resolve.{Moments}
use wadjit.Dns.Request.Fallback.{ReportsFallback, NeedsLookup, round_trip-fallback}
use wadjit.Dns.Request.{RoundTripped, port_of, round_trip}
use wadjit.Response.Watcher.{WatcherResponse, response_metadata}
use wadjit.Http.Endpoint.{HttpUrl, HttpEndpoint}
use wadjit.Http.Execute.{HttpRequest, HttpCalls, execute_http}

-- The list is one response with the property.
abbrev pub One : (WatcherResponse → Type 0) → List WatcherResponse → Type 0
One P [] = ⊥
One P (r ∷ []) = P r
One P (r ∷ s ∷ l) = ⊥

-- The endpoint was initialised, and its task was made after that.
pub record IsReady (r : HttpRequest) (e : HttpEndpoint) (u : HttpUrl) (m : DnsPolicyManager)
    : Type 0 where
  pub has_url : e.url ≡ some u
  pub has_client : is_some e.client ≡ true
  pub has_manager : e.dns_mgr ≡ some m
  pub has_chan : is_some r.resp_chan ≡ true

-- The error of a request, or of its result.
abbrev pub failure_of : HttpCalls → Option GoError
failure_of c = elim c.new_request_err [
  | some err ↦ some err
  | none ↦ elim c.result [ inr err ↦ some err | inl reply ↦ none ]
]

-- The manager after a request: its round trips, and then the observation of the result.
abbrev pub manager_after : HttpCalls → DnsPolicyManager → DnsPolicyManager
manager_after c m = elim c.new_request_err [
  | some err ↦ m
  | none ↦ elim c.result [
    | inr err ↦ observe_result c.observed_at (pos 0) (some err) (c.round_trips m)
    | inl reply ↦ observe_result c.observed_at reply.status_code none (c.round_trips m)
  ]
]

-- `Execute` of an endpoint that is initialised returns. It sends exactly one response, which names the
-- endpoint and has a payload or the error that `Execute` returns; and the guard rail observes the
-- result of the request once, after its round trips.
pub execute_http-answer :
    (r : HttpRequest) (c : HttpCalls) (e : HttpEndpoint) (u : HttpUrl) (m : DnsPolicyManager)
    → IsReady r e u m
    → Finishes (execute_http r c e) λ s.
      One
        (λ x.
          (x.task_id ≡ e.id)
          × (x.watcher_id ≡ e.watcher_id)
          × (x.url ≡ u.text)
          × (x.err ≡ failure_of c)
          × (x.err ≡ none → is_some x.payload ≡ true))
        s.sent
      × (s.err ≡ failure_of c)
      × (s.endpoint.dns_mgr ≡ some (manager_after c m))
unfolding execute_http
execute_http-answer r c e u m ready =
    ground (arith, ready.has_url, ready.has_client, ready.has_manager, ready.has_chan)

last_decision-observe_result :
    (now : Time) (status : ℤ) (err : Option GoError) (m : DnsPolicyManager)
    → (observe_result now status err m).last_decision ≡ m.last_decision
unfolding observe_result
last_decision-observe_result now status err m = ground arith

-- The metadata of the response say that the fallback was used, and why.
abbrev pub MetadataFallback : GoError → WatcherResponse → Type 0
MetadataFallback e x = elim (response_metadata x).dns [
  | none ↦ ⊥
  | some d ↦ (d.fallback_used ≡ true) × (d.err ≡ some e)
]

failure-ReportsFallback :
    (r : HttpRequest) (c : HttpCalls) (e : HttpEndpoint) (u : HttpUrl) (m : DnsPolicyManager)
    (failed err : GoError)
    → IsReady r e u m
    → c.new_request_err ≡ none
    → c.result ≡ inr err
    → ReportsFallback (c.round_trips m).last_decision failed
    → Finishes (execute_http r c e) λ s. One (MetadataFallback failed) s.sent
unfolding execute_http response_metadata dns_metadata
failure-ReportsFallback r c e u m failed err ready sends fails reports = ground (
  arith,
  ready.has_url,
  ready.has_client,
  ready.has_manager,
  ready.has_chan,
  last_decision-observe_result c.observed_at (pos 0) (some err) (c.round_trips m),
)

-- In TTL or cadence mode with the fallback enabled, let a lookup that the request needs fail with the
-- error `failed` while an address is cached, let the client make one round trip, and let it fail. Then
-- `Execute` sends exactly one response, whose metadata say that the fallback was used and give `failed`.
pub execute_http-round_trip :
    (r : HttpRequest) (c : HttpCalls) (e : HttpEndpoint) (u : HttpUrl) (m : DnsPolicyManager)
    (t : Moments) (ctx : RequestContext) (failed err : GoError) (tripped : RoundTripped)
    → IsReady r e u m
    → c.new_request_err ≡ none
    → str_eq (port_of u.parts) "" ≡ false
    → (lookup t.wait u.parts.hostname m).err ≡ some failed
    → non_empty m.cache.addrs ≡ true
    → NeedsLookup t m
    → fallback_enabled m.policy ≡ true
    → round_trip t ctx u.parts m ≡ returns tripped
    → c.round_trips m ≡ tripped.manager
    → c.result ≡ inr err
    → Finishes (execute_http r c e) λ s. One (MetadataFallback failed) s.sent
execute_http-round_trip r c e u m t ctx failed err tripped ready made port fails cached needs on
      trips after fails_too =
    let fell =
      Returns-eq _ _ trips
        (round_trip-fallback t ctx u.parts m failed port fails cached needs on) in
    failure-ReportsFallback r c e u m failed err ready made fails_too (rw after fell.3)
