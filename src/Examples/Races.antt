-- ===== src/Examples/Races.antt =====
-- The races of a WebSocket endpoint at a concrete one.
use wadjit.Prelude.{◌≡◌, refl, none, some, [], ◌∷◌, ◌++◌, pos, inl, inr}
use wadjit.Outcome.{crashes, Finishes}
use wadjit.Ws.Endpoint.{with_lock}
use wadjit.Ws.Connection.{Dialed, reconnect, dial_reconnect}
use wadjit.Ws.Pump.{pump_read}
use wadjit.Ws.Persistent.{connected, execute_connected}
use wadjit.Ws.Races.{execute_connected-pump_read, reconnect-reconnect}
use wadjit.Examples.Sockets.{rpc, calls, endpoint, endpoint_up, request, timeout, fresh, dialed}

execute_connected-pump_read_example : Finishes (connected rpc calls endpoint) λ s.
    (s.err ≡ none)
    × Finishes
        (pump_read rpc (pos 12) none (inr timeout) s.endpoint)
        λ p. execute_connected rpc calls (record s { endpoint = p.endpoint }) ≡ crashes
execute_connected-pump_read_example =
    execute_connected-pump_read rpc calls endpoint "ws://a.example/" (some (inl 7)) (0 ∷ [])
      (pos 12) none timeout endpoint_up request

abbrev redialed : Dialed
redialed = record { conn = 2; remote_addr = none }

reconnect-reconnect_example :
    (reconnect none (inl dialed) fresh ≡ with_lock (dial_reconnect (inl dialed)) fresh)
    × (reconnect none (inl redialed) fresh ≡ with_lock (dial_reconnect (inl redialed)) fresh)
    × Finishes (with_lock (dial_reconnect (inl dialed)) fresh) λ s.
      (s.err ≡ none)
      × (s.endpoint.conn ≡ some 1)
      × Finishes (with_lock (dial_reconnect (inl redialed)) s.endpoint) λ t.
        (t.err ≡ none)
        × (t.endpoint.conn ≡ some 2)
        × (t.endpoint.pumps ≡ 2)
        × (s.closed ++ t.closed ≡ [])
reconnect-reconnect_example =
    reconnect-reconnect none dialed redialed fresh "ws://a.example/" refl refl refl refl refl
