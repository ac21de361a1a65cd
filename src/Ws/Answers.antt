-- ===== src/Ws/Answers.antt =====
-- What the read pump sends for a message and for a failed read.
use wadjit.Prelude.{
  ℕ, String, ◌≡◌, ◌≢◌, Bool, true, false, ◌||◌, Option, none, some, List, [], ◌∷◌, ◌-◌, inl, inr,
  arith, pos, eqb_ℤ, is_some,
}
use wadjit.Clock.{Time}
use wadjit.GoError.{GoError}
use wadjit.Outcome.{Finishes}
use wadjit.Response.Watcher.{WatcherResponse}
use wadjit.Ws.Endpoint.{WsEndpoint, Context, live}
use wadjit.Ws.JsonRpc.{JsonRpc}
use wadjit.Ws.Pump.{ReadError, pump_read}

-- The endpoint was initialised with a channel, and nobody holds its mutex.
pub record IsReady {Ident : Type 0} (e : WsEndpoint Ident) (url : String) : Type 0 where
  pub free : e.locked ≡ false
  pub has_url : e.url ≡ some url
  pub has_ctx : is_some e.ctx ≡ true
  pub has_chan : is_some e.resp_chan ≡ true

-- The response names the endpoint and its watcher.
abbrev pub IsFrom : {Ident : Type 0} → WsEndpoint Ident → String → WatcherResponse → Type 0
IsFrom e url r = (r.task_id ≡ e.id) × (r.watcher_id ≡ e.watcher_id) × (r.url ≡ url)

-- The list is one response with the property.
abbrev pub One : (WatcherResponse → Type 0) → List WatcherResponse → Type 0
One P [] = ⊥
One P (r ∷ []) = P r
One P (r ∷ s ∷ l) = ⊥

-- Either an error and no payload, or a payload and no error.
abbrev pub IsAnswer : WatcherResponse → Type 0
IsAnswer r = is_some r.err ≢ is_some r.payload

-- The end of a connection that is not reported: the endpoint shuts down, the other side closes with the
-- code 1000, 1001 or 1012, or the connection was closed on this side.
abbrev pub is_quiet : Option Context → ReadError → Bool
is_quiet (some live) r = elim r.as_close_error [
  | some ce ↦ eqb_ℤ ce.code (pos 1000) || eqb_ℤ ce.code (pos 1001) || eqb_ℤ ce.code (pos 1012)
  | none ↦ r.is_closed || r.mentions_closed
]
is_quiet ctx r = true

module _ {Req Resp Ident : Type 0} (k : JsonRpc Req Resp Ident) (now : Time)
    (close_err : Option GoError) (e : WsEndpoint Ident) (url : String) (ready : IsReady e url) where
  -- The pump sends exactly one response for each message that it reads, an error or a payload, and the
  -- endpoint keeps its connection and its pump.
  pub pump_read-message :
      (bytes : List ℕ)
      → Finishes (pump_read k now close_err (inl bytes) e) λ s.
        One (λ r. IsFrom e url r × IsAnswer r) s.sent
        × (s.endpoint.conn ≡ e.conn)
        × (s.endpoint.pumps ≡ e.pumps)
  unfolding pump_read
  pump_read-message bytes = ground (arith, ready.free, ready.has_url, ready.has_chan)

  -- After a failed read there is no connection, and one pump fewer. The pump sends nothing if the end
  -- of the connection is quiet, and exactly one error otherwise.
  pub pump_read-error :
      (r : ReadError)
      → Finishes (pump_read k now close_err (inr r) e) λ s.
        (s.endpoint.conn ≡ none)
        × (s.endpoint.pumps ≡ e.pumps - 1)
        × (is_quiet e.ctx r ≡ true → s.sent ≡ [])
        × (is_quiet e.ctx r ≡ false → One (λ r. IsFrom e url r × (is_some r.err ≡ true)) s.sent)
  unfolding pump_read
  pump_read-error r = ground (arith, ready.free, ready.has_url, ready.has_chan, ready.has_ctx)
