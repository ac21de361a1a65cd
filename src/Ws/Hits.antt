-- ===== src/Ws/Hits.antt =====
-- What an execution of a one-hit endpoint sends.
use wadjit.Prelude.{ℕ, String, ◌≡◌, false, Option, none, some, List, [], ◌∷◌, inl, inr, arith}
use wadjit.Outcome.{Finishes}
use wadjit.Response.Watcher.{WatcherResponse, ws_response, http_response, http_response_error}
use wadjit.Ws.Endpoint.{WsEndpoint, live}
use wadjit.Ws.OneHit.{OneHitCalls, execute_one_hit}
use wadjit.Ws.Answers.{IsReady, IsFrom, IsAnswer, One}

-- The message that the three calls of the library give, if none of them fails.
abbrev pub heard : OneHitCalls → Option (List ℕ)
heard c = elim c.dialed [
  | inr err ↦ none
  | inl d ↦ elim c.write_err [
    | some err ↦ none
    | none ↦ elim c.received [ inr err ↦ none | inl bytes ↦ some bytes ]
  ]
]

-- The connection that is dialed.
abbrev pub dialed_conn : OneHitCalls → List ℕ
dialed_conn c = elim c.dialed [ inr err ↦ [] | inl d ↦ d.conn ∷ [] ]

-- The message of a response with a payload.
abbrev pub message_of : WatcherResponse → Option (List ℕ)
message_of r = elim r.payload [
  | none ↦ none
  | some p ↦ elim p [
    | ws_response w ↦ some w.message_bytes
    | http_response h ↦ none
    | http_response_error d ↦ none
  ]
]

-- Let the endpoint have no connection and a live context, and let its mutex be free. `Execute` returns
-- and leaves the endpoint as it was, its mutex free. It sends exactly one response: the message that was
-- read, if dialing, writing and reading all succeed, and otherwise the error that it returns. It closes
-- the connection that it has dialed, and no other.
pub execute_one_hit-IsAnswer :
    {Ident : Type 0} (c : OneHitCalls) (e : WsEndpoint Ident) (url : String)
    → IsReady e url
    → e.conn ≡ none
    → e.ctx ≡ some live
    → Finishes (execute_one_hit c e) λ s.
      One (λ r. IsFrom e url r × IsAnswer r × (r.err ≡ s.err) × (message_of r ≡ heard c)) s.sent
      × (s.endpoint ≡ record e { locked = false })
      × (s.closed ≡ dialed_conn c)
unfolding execute_one_hit
execute_one_hit-IsAnswer c e url ready closed alive =
    ground (arith, ready.free, ready.has_url, ready.has_chan)
