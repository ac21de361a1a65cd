-- ===== src/Ws/Restoring.antt =====
-- A message that is sent with an identifier of its own, and its answer, which gets back the identifier
-- of the request.
use wadjit.Prelude.{
  ℕ, String, ◌≡◌, refl, true, false, Option, none, some, List, [], ◌∷◌, non_empty, inl, arith,
  str_eq, eq_iff, is_some,
}
use wadjit.Clock.{Time}
use wadjit.GoError.{GoError}
use wadjit.Outcome.{finishes, Finishes}
use wadjit.Timing.{no_timestamps}
use wadjit.Response.Watcher.{ws_response}
use wadjit.Ws.Endpoint.{
  WsInflightMessage, WsEndpoint, live, persistent_json_rpc, load, delete, store,
}
use wadjit.Ws.JsonRpc.{JsonRpc}
use wadjit.Ws.Pump.{pump_read}
use wadjit.Ws.Persistent.{PersistentCalls, json_rpc, execute_persistent}

-- The endpoint is connected, and nobody holds its mutex.
pub record IsConnected {Ident : Type 0} (e : WsEndpoint Ident) (url : String) : Type 0 where
  pub free : e.locked ≡ false
  pub is_live : e.ctx ≡ some live
  pub has_url : e.url ≡ some url
  pub has_conn : is_some e.conn ≡ true
  pub has_chan : is_some e.resp_chan ≡ true
  pub is_mode : e.mode ≡ persistent_json_rpc

-- The endpoint's payload is the request `q`, which is `bytes` once it has the identifier of the call.
pub record IsRequest {Req Resp Ident : Type 0} (k : JsonRpc Req Resp Ident) (c : PersistentCalls)
    (payload : List ℕ) (q : Req) (bytes : List ℕ) : Type 0 where
  pub given : non_empty payload ≡ true
  pub parsed : k.unmarshal_request payload ≡ inl q
  pub filled : k.request_empty q ≡ false
  pub printed : k.marshal_request (k.set_request_id c.xid q) ≡ inl (some bytes)

-- The message is a response with the identifier of the call, which is `restored` once it has that of
-- the request `q`.
pub record IsResponse {Req Resp Ident : Type 0} (k : JsonRpc Req Resp Ident) (xid : String)
    (q : Req) (answer restored : List ℕ) : Type 0 where
  pub resp : Resp
  pub clone : Resp
  pub decoded : k.decode_response answer ≡ inl resp
  pub filled : k.response_empty resp ≡ false
  pub named : k.id_string resp ≡ xid
  pub has_name : str_eq xid "" ≡ false
  pub restores : k.with_id (k.request_id q) resp ≡ inl clone
  pub printed : k.marshal_response clone ≡ inl restored

module _ {Ident : Type 0} where
  load-store :
      (key : String) (v : WsInflightMessage Ident) (l : List (String × WsInflightMessage Ident))
      → load key (store key v l) ≡ some v
  unfolding load store
  load-store key v l = ground (arith, eq_iff key key)

  load-delete :
      (key : String) (l : List (String × WsInflightMessage Ident)) → load key (delete key l) ≡ none
  unfolding load delete
  load-delete key [] = refl
  load-delete key ((j, v) ∷ l) = ground (arith, load-delete key l)

-- An answer to a message that is in flight.
answered :
    {Req Resp Ident : Type 0} (k : JsonRpc Req Resp Ident) (e : WsEndpoint Ident) (url : String)
    (q : Req) (m : WsInflightMessage Ident) (now : Time) (close_err : Option GoError)
    (answer restored : List ℕ)
    → IsConnected e url
    → m.original_id ≡ k.request_id q
    → load m.inflight_id e.inflight_msgs ≡ some m
    → IsResponse k m.inflight_id q answer restored
    → Finishes (pump_read k now close_err (inl answer) e) λ u.
      (u.sent
        ≡ record {
          task_id = e.id;
          watcher_id = e.watcher_id;
          url = url;
          err = none;
          payload = some (
              ws_response (record {
                remote_addr = e.remote_addr;
                message_bytes = restored;
                timestamps = record no_timestamps { start = m.time_sent; first_byte = now };
              }));
        }
          ∷ [])
      × (load m.inflight_id u.endpoint.inflight_msgs ≡ none)
unfolding pump_read
answered k e url q m now close_err answer restored up o l r = ground (
  arith,
  up.is_live,
  up.has_url,
  up.has_chan,
  up.is_mode,
  r.decoded,
  r.filled,
  r.named,
  r.has_name,
  r.restores,
  r.printed,
  load-delete m.inflight_id e.inflight_msgs,
)

module _ {Req Resp Ident : Type 0} (k : JsonRpc Req Resp Ident) (c : PersistentCalls)
    (e : WsEndpoint Ident) (url : String) (q : Req) (bytes : List ℕ) (up : IsConnected e url)
    (request : IsRequest k c e.payload q bytes) (writes : c.write_err ≡ none) where
  abbrev inflight : WsInflightMessage Ident
  inflight = record { inflight_id = c.xid; original_id = k.request_id q; time_sent = c.now }

  abbrev stored : WsEndpoint Ident
  stored = record e { locked = false; inflight_msgs = store c.xid inflight e.inflight_msgs }

  stored_up : IsConnected stored url
  stored_up = record {
    free = refl;
    is_live = up.is_live;
    has_url = up.has_url;
    has_conn = up.has_conn;
    has_chan = up.has_chan;
    is_mode = up.is_mode;
  }

  execute-stores :
      execute_persistent k json_rpc c e
      ≡ finishes
          (record { endpoint = stored; sent = []; written = bytes ∷ []; closed = []; err = none })
  unfolding execute_persistent
  execute-stores = ground (
    arith, up.free, up.is_live, up.has_url, up.has_conn, request.given, request.parsed,
    request.filled, request.printed, writes,
  )

  -- Let the endpoint be connected with its mutex free, and let the write succeed. `Execute` writes the
  -- request with the identifier `xid` in place of its own. If the pump then reads a response with the
  -- identifier `xid`, it sends exactly that response, with the request's own identifier restored and
  -- the time of the request as its start, and `xid` is no longer in flight.
  pub execute_persistent-pump_read :
      (now : Time) (close_err : Option GoError) (answer restored : List ℕ)
      → IsResponse k c.xid q answer restored
      → Finishes (execute_persistent k json_rpc c e) λ s.
        (s.written ≡ bytes ∷ [])
        × (s.err ≡ none)
        × Finishes (pump_read k now close_err (inl answer) s.endpoint) λ u.
          (u.sent
            ≡ record {
              task_id = e.id;
              watcher_id = e.watcher_id;
              url = url;
              err = none;
              payload = some (
                  ws_response (record {
                    remote_addr = e.remote_addr;
                    message_bytes = restored;
                    timestamps = record no_timestamps { start = c.now; first_byte = now };
                  }));
            }
              ∷ [])
          × (load c.xid u.endpoint.inflight_msgs ≡ none)
  execute_persistent-pump_read now close_err answer restored r = rw execute-stores (
    refl,
    refl,
    answered k stored url q inflight now close_err answer restored stored_up refl
        (load-store c.xid inflight e.inflight_msgs) r,
  )
