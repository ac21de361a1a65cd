-- ===== src/Ws/Shutdown.antt =====
-- Where an execution on a persistent connection does not do what it should: a failed write, and an
-- endpoint that was closed.
use wadjit.Prelude.{ℕ, String, ◌≡◌, Option, none, some, List, [], inl, inr, arith}
use wadjit.Clock.{Time}
use wadjit.GoError.{GoError}
use wadjit.Outcome.{blocks, Finishes}
use wadjit.Ws.Endpoint.{WsEndpoint, canceled}
use wadjit.Ws.JsonRpc.{JsonRpc}
use wadjit.Ws.Connection.{Dialed, Closing, close_ws}
use wadjit.Ws.Pump.{ReadError, pump_read}
use wadjit.Ws.Persistent.{PersistentCalls, WriteError, json_rpc, execute_persistent}
use wadjit.Ws.Restoring.{IsConnected, IsRequest}

-- Let the endpoint be connected with its mutex free, and let its payload be a request. If the write
-- fails, `Execute` never returns: it waits for the mutex that it holds itself.
pub execute_persistent-blocks :
    {Req Resp Ident : Type 0} (k : JsonRpc Req Resp Ident) (c : PersistentCalls)
    (e : WsEndpoint Ident) (url : String) (q : Req) (bytes : List ℕ) (w : WriteError)
    → IsConnected e url
    → IsRequest k c e.payload q bytes
    → c.write_err ≡ some w
    → execute_persistent k json_rpc c e ≡ blocks
unfolding execute_persistent
execute_persistent-blocks k c e url q bytes w up request fails = ground (
  arith, up.free, up.is_live, up.has_url, up.has_conn, request.given, request.parsed,
  request.filled, request.printed,
)

-- After `Close` has closed a connection without an error, and its read pump has ended, an `Execute`
-- dials anew: if the dial gives a connection, `Execute` returns no error and leaves the connection open,
-- though the context is canceled and nothing is written.
pub execute_persistent-close_ws :
    {Req Resp Ident : Type 0} (k : JsonRpc Req Resp Ident) (c : PersistentCalls) (r : Closing)
    (now : Time) (close_err : Option GoError) (failed : ReadError) (e : WsEndpoint Ident)
    (url : String) (d : Dialed)
    → IsConnected e url
    → e.pumps ≡ 1
    → r.control_err ≡ none
    → r.close_err ≡ none
    → c.dialed ≡ inl d
    → Finishes (close_ws r e) λ s.
      (s.err ≡ none)
      × (s.endpoint.conn ≡ none)
      × Finishes (pump_read k now close_err (inr failed) s.endpoint) λ p.
        (p.sent ≡ [])
        × Finishes (execute_persistent k json_rpc c p.endpoint) λ u.
          (u.err ≡ none)
          × (u.endpoint.conn ≡ some d.conn)
          × (u.endpoint.ctx ≡ some canceled)
          × (u.written ≡ [])
unfolding close_ws pump_read execute_persistent
execute_persistent-close_ws k c r now close_err failed e url d up one control closes dials =
    ground (arith, up.free, up.is_live, up.has_url, up.has_conn, up.has_chan, up.is_mode)
