-- ===== src/Ws/Races.antt =====
-- What can come between the test of a connection and its use, where the mutex of a `WSEndpoint` is not
-- held (task_ws.go).
use wadjit.Prelude.{ℕ, String, false, ◌≡◌, Option, none, some, List, [], ◌++◌, inl, inr, arith}
use wadjit.Clock.{Time}
use wadjit.GoError.{GoError}
use wadjit.Outcome.{crashes, Finishes}
use wadjit.Ws.Endpoint.{WsEndpoint, persistent_json_rpc, with_lock}
use wadjit.Ws.JsonRpc.{JsonRpc}
use wadjit.Ws.Connection.{Dialed, Closing, close_ws, reconnect, dial_reconnect}
use wadjit.Ws.Pump.{ReadError, pump_head, pump_starts_read, pump_read}
use wadjit.Ws.Persistent.{PersistentCalls, connected, execute_connected}
use wadjit.Ws.Restoring.{IsConnected, IsRequest}

module _ {Req Resp Ident : Type 0} (k : JsonRpc Req Resp Ident) where
  -- Let the endpoint be connected with its mutex free, and let its payload be a request. `Execute` finds
  -- the connection open and does nothing about it; if then a read of the pump fails, before `Execute`
  -- takes the mutex, the rest of `Execute` panics on the connection that is gone.
  pub execute_connected-pump_read :
      (c : PersistentCalls) (e : WsEndpoint Ident) (url : String) (q : Req) (bytes : List ℕ)
      (now : Time) (close_err : Option GoError) (failed : ReadError)
      → IsConnected e url
      → IsRequest k c e.payload q bytes
      → Finishes (connected k c e) λ s.
        (s.err ≡ none)
        × Finishes
            (pump_read k now close_err (inr failed) s.endpoint)
            λ p. execute_connected k c (record s { endpoint = p.endpoint }) ≡ crashes
  unfolding connected pump_read execute_connected
  execute_connected-pump_read c e url q bytes now close_err failed up request = ground (
    arith, up.free, up.is_live, up.has_url, up.has_conn, up.has_chan, request.given, request.parsed,
    request.filled, request.printed,
  )

module _ {Ident : Type 0} where
  -- Let the endpoint be connected with its mutex free. If `Close` comes between the pump's test of the
  -- context and its read, and reports no error, the pump panics on the connection that is gone.
  close_ws-pump_starts_read :
      (r : Closing) (e : WsEndpoint Ident) (url : String)
      → IsConnected e url
      → r.control_err ≡ none
      → r.close_err ≡ none
      → Finishes (pump_head e) λ h.
        Finishes
          (close_ws r h.endpoint)
          λ s. (s.err ≡ none) × (pump_starts_read s.endpoint ≡ crashes)
  unfolding pump_head close_ws pump_starts_read
  close_ws-pump_starts_read r e url up control closes =
      ground (arith, up.free, up.is_live, up.has_url, up.has_conn)

  -- Let two executions find an endpoint without a connection and without a pump, its mutex free, and let
  -- both go on to dial, the one after the other. Both succeed; two pumps run, the endpoint's connection
  -- is the second one, and the first is forgotten without being closed.
  pub reconnect-reconnect :
      (close_err : Option GoError) (a b : Dialed) (e : WsEndpoint Ident) (url : String)
      → e.locked ≡ false
      → e.url ≡ some url
      → e.conn ≡ none
      → e.pumps ≡ 0
      → e.mode ≡ persistent_json_rpc
      → (reconnect close_err (inl a) e ≡ with_lock (dial_reconnect (inl a)) e)
        × (reconnect close_err (inl b) e ≡ with_lock (dial_reconnect (inl b)) e)
        × Finishes (with_lock (dial_reconnect (inl a)) e) λ s.
          (s.err ≡ none)
          × (s.endpoint.conn ≡ some a.conn)
          × Finishes (with_lock (dial_reconnect (inl b)) s.endpoint) λ t.
            (t.err ≡ none)
            × (t.endpoint.conn ≡ some b.conn)
            × (t.endpoint.pumps ≡ 2)
            × (s.closed ++ t.closed ≡ [])
  unfolding reconnect dial_reconnect with_lock
  reconnect-reconnect close_err a b e url free has_url gone idle mode = ground arith
