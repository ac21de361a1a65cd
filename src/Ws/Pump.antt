-- ===== src/Ws/Pump.antt =====
-- The read pump of a `WSEndpoint` (task_ws.go): what it does with a message, and with a failed read.
use wadjit.Prelude.{
  ℕ, String, Bool, ◌||◌, Option, none, some, List, [], str_eq, ◌-◌, if◌then◌else◌, ◌⊎◌, inl, inr, ℤ,
  pos, eqb_ℤ,
}
use wadjit.Clock.{Time}
use wadjit.GoError.{GoError, message, wrapped}
use wadjit.Outcome.{Outcome, finishes, crashes, ◌>>=◌}
use wadjit.Timing.{RequestTimestamps, no_timestamps}
use wadjit.Response.Watcher.{ws_response, new_ws_task_response}
use wadjit.Ws.Endpoint.{
  WsInflightMessage, WsEndpoint, WsStep, live, canceled, done, send, also, send_error, load, delete,
}
use wadjit.Ws.JsonRpc.{JsonRpc}
use wadjit.Ws.Connection.{is_persistent, close_conn}

-- A `*websocket.CloseError` of the WebSocket library: its code, and itself as an error.
pub record CloseError : Type 0 where
  pub code : ℤ
  pub as_error : GoError

-- The error of a read, and what the libraries say about it: `errors.As` a close error, `errors.Is`
-- `net.ErrClosed`, its text mentions a closed connection, `IsUnexpectedCloseError`, and `errors.As` a
-- network error that is a timeout.
pub record ReadError : Type 0 where
  pub err : GoError
  pub as_close_error : Option CloseError
  pub is_closed : Bool
  pub mentions_closed : Bool
  pub is_unexpected_close : Bool
  pub times_out : Bool

pub data CloseKind : Type 0 where
  benign try_again_later abnormal unexpected : CloseKind

-- The codes 1000, 1001 and 1012 are benign, 1013 asks to try again, 1006 is abnormal.
unfoldable pub close_kind : ℤ → CloseKind
close_kind code =
    if eqb_ℤ code (pos 1000) || eqb_ℤ code (pos 1001) || eqb_ℤ code (pos 1012)
    then benign
    else if eqb_ℤ code (pos 1013)
    then try_again_later
    else if eqb_ℤ code (pos 1006)
    then abnormal
    else unexpected

module _ {Ident : Type 0} where
  -- An error is sent, and the connection is closed; the error of closing it is dropped.
  report_and_close : GoError → Option GoError → String → WsEndpoint Ident → Outcome (WsStep Ident)
  unfolding send_error also close_conn
  report_and_close err close_err url e = do
    s ← send_error err url e
    t ← also s (close_conn close_err s.endpoint)
    finishes (record t { err = none })

  close_quietly : Option GoError → WsEndpoint Ident → Outcome (WsStep Ident)
  unfolding close_conn
  close_quietly close_err e = do t ← close_conn close_err e; finishes (record t { err = none })

  handle_web_socket_close_error :
      CloseError → Option GoError → String → WsEndpoint Ident → Outcome (WsStep Ident)
  unfolding close_kind close_quietly report_and_close
  handle_web_socket_close_error ce close_err url e = elim (close_kind ce.code) [
    | benign ↦ close_quietly close_err e
    | try_again_later ↦
        report_and_close (wrapped "websocket closed: try again later (1013)" ce.as_error) close_err
          url e
    | abnormal ↦
        report_and_close (wrapped "websocket closed abnormally (1006)" ce.as_error) close_err url e
    | unexpected ↦
        report_and_close (wrapped "websocket unexpected close" ce.as_error) close_err url e
  ]

  handle_network_error :
      ReadError → Option GoError → String → WsEndpoint Ident → Outcome (WsStep Ident)
  unfolding report_and_close
  handle_network_error r close_err url e =
      if r.times_out
      then report_and_close (wrapped "websocket read timeout error" r.err) close_err url e
      else report_and_close (wrapped "websocket read error" r.err) close_err url e

  handle_live_read_error :
      ReadError → Option GoError → String → WsEndpoint Ident → Outcome (WsStep Ident)
  unfolding handle_web_socket_close_error close_quietly report_and_close handle_network_error
  handle_live_read_error r close_err url e = elim r.as_close_error [
    | some ce ↦ handle_web_socket_close_error ce close_err url e
    | none ↦
        if r.is_closed || r.mentions_closed
        then close_quietly close_err e
        else if r.is_unexpected_close
        then report_and_close (wrapped "websocket unexpected close" r.err) close_err url e
        else handle_network_error r close_err url e
  ]

  -- `e.ctx.Err()` panics on a nil context.
  unfoldable pub handle_web_socket_read_error :
      ReadError → Option GoError → String → WsEndpoint Ident → Outcome (WsStep Ident)
  unfolding close_quietly handle_live_read_error
  handle_web_socket_read_error r close_err url e = elim e.ctx [
    | none ↦ crashes
    | some canceled ↦ close_quietly close_err e
    | some live ↦ handle_live_read_error r close_err url e
  ]

  -- A payload that is sent in a response.
  deliver : List ℕ → RequestTimestamps → String → WsEndpoint Ident → Outcome (WsStep Ident)
  unfolding send
  deliver bytes timestamps url e =
      send
        (record {
          task_id = e.id;
          watcher_id = e.watcher_id;
          url = url;
          err = none;
          payload = some (
              ws_response
                (record (new_ws_task_response e.remote_addr bytes) { timestamps = timestamps }));
        })
        none e

  -- The pump goes on after an error in a message: its handlers return none.
  refuse : GoError → String → WsEndpoint Ident → Outcome (WsStep Ident)
  unfolding send_error
  refuse err url e = do s ← send_error err url e; finishes (record s { err = none })

  handle_regular_response : List ℕ → String → WsEndpoint Ident → Outcome (WsStep Ident)
  unfolding deliver
  handle_regular_response bytes url e = deliver bytes no_timestamps url e

  pump_ended : WsStep Ident → WsStep Ident
  pump_ended s = record s { endpoint = record (s.endpoint) { pumps = s.endpoint.pumps - 1 } }

  -- The read pump's loop in two steps. At its head it ends if the context is canceled.
  unfoldable pub pump_head : WsEndpoint Ident → Outcome (WsStep Ident)
  unfolding pump_ended
  pump_head e = elim e.ctx [
    | none ↦ crashes
    | some canceled ↦
        finishes
          (pump_ended (record { endpoint = e; sent = []; written = []; closed = []; err = none }))
    | some live ↦ elim e.url [ none ↦ crashes | some u ↦ done none e ]
  ]

  -- The head of `e.conn.ReadMessage()`, after the test of the context: it panics on a nil connection.
  unfoldable pub pump_starts_read : WsEndpoint Ident → Outcome (WsStep Ident)
  pump_starts_read e = elim e.conn [ none ↦ crashes | some c ↦ done none e ]

module _ {Req Resp Ident : Type 0} (k : JsonRpc Req Resp Ident) where
  restore :
      Resp
      → WsInflightMessage Ident
      → RequestTimestamps
      → String
      → WsEndpoint Ident
      → Outcome (WsStep Ident)
  unfolding refuse deliver
  restore resp inflight timestamps url e = elim (k.with_id inflight.original_id resp) [
    | inr err ↦ refuse (wrapped "failed restoring original ID" err) url e
    | inl clone ↦ elim (k.marshal_response clone) [
      | inr err ↦ refuse (wrapped "failed re-marshaling JSON-RPC response" err) url e
      | inl bytes ↦ deliver bytes (record timestamps { start = inflight.time_sent }) url e
    ]
  ]

  process_inflight_message :
      Resp
      → WsInflightMessage Ident
      → RequestTimestamps
      → String
      → WsEndpoint Ident
      → Outcome (WsStep Ident)
  unfolding restore
  process_inflight_message resp inflight timestamps url e =
      restore resp inflight timestamps url
        (record e { inflight_msgs = delete (k.id_string resp) e.inflight_msgs })

  handle_known : Resp → RequestTimestamps → String → WsEndpoint Ident → Outcome (WsStep Ident)
  unfolding process_inflight_message refuse
  handle_known resp timestamps url e = elim (load (k.id_string resp) e.inflight_msgs) [
    | some inflight ↦ process_inflight_message resp inflight timestamps url e
    | none ↦ refuse (message "unknown response ID") url e
  ]

  handle_json_rpc_response :
      List ℕ → RequestTimestamps → String → WsEndpoint Ident → Outcome (WsStep Ident)
  unfolding handle_known refuse
  handle_json_rpc_response bytes timestamps url e = elim (k.decode_response bytes) [
    | inr err ↦ refuse (wrapped "failed parsing jsonrpc.Response from bytes" err) url e
    | inl resp ↦
        if k.response_empty resp
        then refuse (message "empty JSON-RPC response") url e
        else if str_eq (k.id_string resp) ""
        then refuse (message "found nil response ID") url e
        else handle_known resp timestamps url e
  ]

  pump_message : Time → List ℕ → String → WsEndpoint Ident → Outcome (WsStep Ident)
  unfolding handle_json_rpc_response handle_regular_response
  pump_message now bytes url e =
      if is_persistent e.mode
      then handle_json_rpc_response bytes (record no_timestamps { first_byte = now }) url e
      else handle_regular_response bytes url e

  pump_read_of :
      Time
      → Option GoError
      → List ℕ ⊎ ReadError
      → String
      → WsEndpoint Ident
      → Outcome (WsStep Ident)
  unfolding pump_message handle_web_socket_read_error pump_ended
  pump_read_of now close_err (inl bytes) url e = pump_message now bytes url e
  pump_read_of now close_err (inr r) url e = do
    s ← handle_web_socket_read_error r close_err url e
    finishes (pump_ended s)

  -- At `now` the read returns a message, or an error, after which the pump ends.
  unfoldable pub pump_read :
      Time → Option GoError → List ℕ ⊎ ReadError → WsEndpoint Ident → Outcome (WsStep Ident)
  unfolding pump_read_of
  pump_read now close_err read e = elim e.url [
    | none ↦ crashes
    | some u ↦ pump_read_of now close_err read u e
  ]
