-- ===== src/Ws/Persistent.antt =====
-- `wsPersistent` (task_ws.go): a JSON-RPC message on the connection that stays open.
use wadjit.Prelude.{
  ℕ, String, Bool, true, false, not, ◌&&◌, is_some, Option, none, some, List, [], ◌∷◌, non_empty,
  if◌then◌else◌, ◌⊎◌, inl, inr, ℤ,
}
use wadjit.Clock.{Time}
use wadjit.GoError.{GoError, message, wrapped}
use wadjit.Outcome.{Outcome, finishes, crashes, ◌>>=◌}
use wadjit.Ws.Endpoint.{
  WsInflightMessage, WsEndpoint, WsStep, Context, live, canceled, done, also, send_error, store,
  with_lock,
}
use wadjit.Ws.JsonRpc.{JsonRpc}
use wadjit.Ws.Connection.{Dialed, close_conn, nil_conn, reconnect}

pub data WsPersistentProtocol : Type 0 where
  unknown_protocol json_rpc : WsPersistentProtocol
  other_protocol : ℤ → WsPersistentProtocol

-- The error of a write, and what the library says about it: `IsCloseError` with the codes 1000 and
-- 1001, and that its text mentions a close that was sent.
pub record WriteError : Type 0 where
  pub err : GoError
  pub is_close_error : Bool
  pub mentions_close_sent : Bool

-- What the libraries and the clock give to one execution: the connection of a dial, the random
-- identifier, the time, the error of the write, and those of closing a connection.
pub record PersistentCalls : Type 0 where
  pub dialed : Dialed ⊎ GoError
  pub xid : String
  pub now : Time
  pub write_err : Option WriteError
  pub close_err : Option GoError

pub record PreparedMessage (Ident : Type 0) : Type 0 where
  pub payload : Option (List ℕ)
  pub inflight : WsInflightMessage Ident

write_error : WriteError → GoError
write_error w =
    if w.is_close_error
    then wrapped "websocket write failed (connection closed)" w.err
    else if w.mentions_close_sent
    then wrapped "websocket write failed (close sent)" w.err
    else wrapped "unexpected websocket write error" w.err

-- A nil payload is that of the endpoint.
or_own : Option (List ℕ) → List ℕ → List ℕ
or_own none own = own
or_own (some bytes) own = bytes

abbrev is_live : Option Context → Bool
is_live none = false
is_live (some canceled) = false
is_live (some live) = true

module _ {Req Resp Ident : Type 0} (k : JsonRpc Req Resp Ident) where
  unmarshal_payload : List ℕ → Req ⊎ GoError
  unmarshal_payload payload =
      if non_empty payload then k.unmarshal_request payload else inl k.new_request

  with_inflight_id : String → Req → Req × Option Ident
  with_inflight_id xid q =
      if k.request_empty q then (q, none) else (k.set_request_id xid q, k.request_id q)

  marshal : PersistentCalls → Req × Option Ident → PreparedMessage Ident ⊎ GoError
  marshal c (q, original_id) = elim (k.marshal_request q) [
    | inr err ↦ inr (wrapped "failed to marshal JSON-RPC message" err)
    | inl payload ↦ inl (record {
      payload = payload;
      inflight = record { inflight_id = c.xid; original_id = original_id; time_sent = c.now };
    })
  ]

  unfoldable pub prepare_json_rpc_message :
      PersistentCalls → List ℕ → PreparedMessage Ident ⊎ GoError
  unfolding unmarshal_payload with_inflight_id marshal
  prepare_json_rpc_message c payload = elim (unmarshal_payload payload) [
    | inr err ↦ inr (wrapped "failed to unmarshal JSON-RPC message" err)
    | inl q ↦ marshal c (with_inflight_id c.xid q)
  ]

  unfoldable pub handle_write_error :
      WriteError → Option GoError → String → WsEndpoint Ident → Outcome (WsStep Ident)
  unfolding close_conn also send_error write_error
  handle_write_error w close_err url e = do
    s ← close_conn close_err e
    also s (send_error (write_error w) url s.endpoint)

  -- The connection's `WriteMessage` panics on a nil connection.
  write : PersistentCalls → List ℕ → String → WsEndpoint Ident → Outcome (WsStep Ident)
  unfolding handle_write_error
  write c message_bytes url e = elim e.conn [
    | none ↦ crashes
    | some conn ↦ elim c.write_err [
      | some w ↦ handle_write_error w c.close_err url e
      | none ↦ finishes (record {
        endpoint = e;
        sent = [];
        written = message_bytes ∷ [];
        closed = [];
        err = none;
      })
    ]
  ]

  -- The endpoint when the message is written.
  with_inflight : PreparedMessage Ident → WsEndpoint Ident → WsEndpoint Ident
  unfolding store
  with_inflight p e = record e {
    inflight_msgs = store p.inflight.inflight_id p.inflight e.inflight_msgs;
  }

  execute_live : PersistentCalls → String → WsEndpoint Ident → Outcome (WsStep Ident)
  unfolding prepare_json_rpc_message send_error with_inflight or_own write
  execute_live c url e = elim (prepare_json_rpc_message c e.payload) [
    | inr err ↦ send_error err url e
    | inl p ↦ write c (or_own p.payload e.payload) url (with_inflight p e)
  ]

  unfoldable pub execute_locked : PersistentCalls → WsEndpoint Ident → Outcome (WsStep Ident)
  unfolding execute_live
  execute_locked c e = elim e.url [
    | none ↦ crashes
    | some url ↦ elim e.ctx [
      | none ↦ crashes
      | some canceled ↦ done none e
      | some live ↦ execute_live c url e
    ]
  ]

  abbrev fails : PersistentCalls → Bool
  fails c = is_some c.write_err

  -- The state that `execute_locked` leaves to the others when its write fails: the message is in flight,
  -- and the mutex is held by a call that waits for it.
  unfoldable pub left_waiting : PersistentCalls → WsEndpoint Ident → Option (WsEndpoint Ident)
  unfolding prepare_json_rpc_message with_inflight
  left_waiting c e =
      if not e.locked && is_live e.ctx && is_some e.url && is_some e.conn && fails c
      then elim (prepare_json_rpc_message c e.payload) [
        | inr err ↦ none
        | inl p ↦ some (with_inflight p (record e { locked = true }))
      ]
      else none

  -- If the connection is closed, try to reconnect.
  unfoldable pub connected : PersistentCalls → WsEndpoint Ident → Outcome (WsStep Ident)
  unfolding nil_conn reconnect
  connected c e = do
    is_nil ← nil_conn e
    if is_nil then reconnect c.close_err c.dialed e else done none e

  unfoldable pub execute_connected : PersistentCalls → WsStep Ident → Outcome (WsStep Ident)
  unfolding execute_locked with_lock also
  execute_connected c s = elim s.err [
    | some err ↦ finishes s
    | none ↦ also s (with_lock (execute_locked c) s.endpoint)
  ]

  unfoldable pub execute_persistent :
      WsPersistentProtocol → PersistentCalls → WsEndpoint Ident → Outcome (WsStep Ident)
  unfolding connected execute_connected
  execute_persistent unknown_protocol c e = done (some (message "unsupported protocol")) e
  execute_persistent (other_protocol n) c e = done (some (message "unsupported protocol")) e
  execute_persistent json_rpc c e = do s ← connected c e; execute_connected c s
