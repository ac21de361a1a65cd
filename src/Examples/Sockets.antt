-- ===== src/Examples/Sockets.antt =====
-- A WebSocket endpoint whose requests and responses are one byte, the identifier.
use wadjit.Prelude.{
  ◌≡◌, ◌≤◌, ◌+◌, ◌-◌, refl, ℕ, String, true, false, Option, none, some, [], ◌∷◌, ◌⊎◌, inl, inr,
  length, pos, is_some,
}
use wadjit.GoError.{external}
use wadjit.Outcome.{finishes, blocks, Finishes}
use wadjit.Timing.{no_timestamps}
use wadjit.Response.Watcher.{ws_response}
use wadjit.Ws.Endpoint.{
  WsEndpoint, WsStep, with_lock, persistent_json_rpc, live, canceled, load, delete, store,
  new_ws_endpoint,
}
use wadjit.Ws.JsonRpc.{JsonRpc}
use wadjit.Ws.Connection.{Dialed, close_ws, initialize_ws}
use wadjit.Ws.Pump.{ReadError, pump_read}
use wadjit.Ws.Persistent.{
  PersistentCalls, WriteError, json_rpc, left_waiting, execute_locked, execute_persistent,
}
use wadjit.Ws.Answers
use wadjit.Ws.Answers.{IsFrom, IsAnswer, One, is_quiet, pump_read-message, pump_read-error}
use wadjit.Ws.Restoring.{IsConnected, IsRequest, execute_persistent-pump_read}
use wadjit.Ws.Shutdown.{execute_persistent-blocks, execute_persistent-close_ws}
use wadjit.Ws.Inflight.{
  Reach, here, next, waits, initializes, executes, reads, payloads, Reach-payloads,
}

-- A request is empty, or has a number or a text as its identifier; a response has a text, and the
-- identifier that was put in its place.
abbrev pub rpc : JsonRpc (Option (ℕ ⊎ String)) (String × Option ℕ) ℕ
rpc = record {
  new_request = none;
  unmarshal_request = λ bytes. elim bytes [ [] ↦ inr (external 1) | b ∷ l ↦ inl (some (inl b)) ];
  request_empty = λ q. elim q [ none ↦ true | some i ↦ false ];
  request_id = λ q. elim q [ none ↦ none | some i ↦ elim i [ inl n ↦ some n | inr s ↦ none ] ];
  set_request_id = λ s q. some (inr s);
  marshal_request = λ q. elim q [
    | none ↦ inl none
    | some i ↦ elim i [ inl n ↦ inl (some (n ∷ [])) | inr s ↦ inl (some (0 ∷ [])) ]
  ];
  decode_response = λ bytes. elim bytes [ [] ↦ inr (external 2) | b ∷ l ↦ inl ("x1", none) ];
  response_empty = λ r. false;
  id_string = λ r. r.0;
  with_id = λ i r. inl (r.0, i);
  marshal_response = λ r. elim r.1 [ none ↦ inl [] | some n ↦ inl (n ∷ []) ];
}

abbrev pub dialed : Dialed
dialed = record { conn = 1; remote_addr = some "192.0.2.1:80" }

abbrev pub calls : PersistentCalls
calls = record { dialed = inl dialed; xid = "x1"; now = pos 10; write_err = none; close_err = none }

abbrev pub fresh : WsEndpoint ℕ
fresh = new_ws_endpoint (some "ws://a.example/") none persistent_json_rpc (7 ∷ []) "t"

abbrev pub endpoint : WsEndpoint ℕ
endpoint = record fresh {
  conn = some 1;
  remote_addr = some "192.0.2.1:80";
  pumps = 1;
  watcher_id = "w";
  resp_chan = some 3;
  ctx = some live;
}

pub endpoint_up : IsConnected endpoint "ws://a.example/"
endpoint_up = record {
  free = refl;
  is_live = refl;
  has_url = refl;
  has_conn = refl;
  has_chan = refl;
  is_mode = refl;
}

endpoint-IsReady : Answers.IsReady endpoint "ws://a.example/"
endpoint-IsReady = record { free = refl; has_url = refl; has_ctx = refl; has_chan = refl }

pub request : IsRequest rpc calls endpoint.payload (some (inl 7)) (0 ∷ [])
request = record { given = refl; parsed = refl; filled = refl; printed = refl }

-- The first step of a life of the endpoint.
initialized :
    initialize_ws (inl dialed) "w" (some 3) fresh
    ≡ finishes (record { endpoint = endpoint; sent = []; written = []; closed = []; err = none })
unfolding initialize_ws
initialized = refl

execute_persistent-pump_read_example :
    Finishes (execute_persistent rpc json_rpc calls endpoint) λ s.
      (s.written ≡ (0 ∷ []) ∷ [])
      × (s.err ≡ none)
      × Finishes (pump_read rpc (pos 12) none (inl (9 ∷ [])) s.endpoint) λ u.
        (u.sent
          ≡ record {
            task_id = "t";
            watcher_id = "w";
            url = "ws://a.example/";
            err = none;
            payload = some (
                ws_response (record {
                  remote_addr = some "192.0.2.1:80";
                  message_bytes = 7 ∷ [];
                  timestamps = record no_timestamps { start = pos 10; first_byte = pos 12 };
                }));
          }
            ∷ [])
        × (load "x1" u.endpoint.inflight_msgs ≡ none)
execute_persistent-pump_read_example =
    execute_persistent-pump_read rpc calls endpoint "ws://a.example/" (some (inl 7)) (0 ∷ [])
      endpoint_up request refl (pos 12) none (9 ∷ []) (7 ∷ [])
      (record {
        resp = ("x1", none);
        clone = ("x1", some 7);
        decoded = refl;
        filled = refl;
        named = refl;
        has_name = refl;
        restores = refl;
        printed = refl;
      })

pump_read-message_example : Finishes (pump_read rpc (pos 12) none (inl []) endpoint) λ s.
    One (λ r. IsFrom endpoint "ws://a.example/" r × IsAnswer r) s.sent
    × (s.endpoint.conn ≡ some 1)
    × (s.endpoint.pumps ≡ 1)
pump_read-message_example =
    pump_read-message rpc (pos 12) none endpoint "ws://a.example/" endpoint-IsReady []

abbrev pub timeout : ReadError
timeout = record {
  err = external 5;
  as_close_error = none;
  is_closed = false;
  mentions_closed = false;
  is_unexpected_close = false;
  times_out = true;
}

pump_read-error_example : Finishes (pump_read rpc (pos 12) none (inr timeout) endpoint) λ s.
    (s.endpoint.conn ≡ none)
    × (s.endpoint.pumps ≡ 1 - 1)
    × (is_quiet (some live) timeout ≡ true → s.sent ≡ [])
    × (is_quiet (some live) timeout ≡ false
        → One (λ r. IsFrom endpoint "ws://a.example/" r × (is_some r.err ≡ true)) s.sent)
pump_read-error_example =
    pump_read-error rpc (pos 12) none endpoint "ws://a.example/" endpoint-IsReady timeout

abbrev broken : WriteError
broken = record { err = external 6; is_close_error = false; mentions_close_sent = true }

execute_persistent-blocks_example :
    execute_persistent rpc json_rpc (record calls { write_err = some broken }) endpoint ≡ blocks
execute_persistent-blocks_example =
    execute_persistent-blocks rpc (record calls { write_err = some broken }) endpoint
      "ws://a.example/" (some (inl 7)) (0 ∷ []) broken endpoint_up
      (record { given = refl; parsed = refl; filled = refl; printed = refl }) refl

execute_persistent-close_ws_example :
    Finishes (close_ws (record { control_err = none; close_err = none }) endpoint) λ s.
      (s.err ≡ none)
      × (s.endpoint.conn ≡ none)
      × Finishes (pump_read rpc (pos 12) none (inr timeout) s.endpoint) λ p.
        (p.sent ≡ [])
        × Finishes (execute_persistent rpc json_rpc calls p.endpoint) λ u.
          (u.err ≡ none)
          × (u.endpoint.conn ≡ some 1)
          × (u.endpoint.ctx ≡ some canceled)
          × (u.written ≡ [])
execute_persistent-close_ws_example =
    execute_persistent-close_ws rpc calls (record { control_err = none; close_err = none }) (pos 12)
      none timeout endpoint "ws://a.example/" dialed endpoint_up refl refl refl refl

-- One message is written and answered.
abbrev answered : WsStep ℕ
answered = record {
  endpoint = endpoint;
  sent =
      record {
        task_id = "t";
        watcher_id = "w";
        url = "ws://a.example/";
        err = none;
        payload = some (
            ws_response (record {
              remote_addr = some "192.0.2.1:80";
              message_bytes = 7 ∷ [];
              timestamps = record no_timestamps { start = pos 10; first_byte = pos 12 };
            }));
      }
      ∷ [];
  written = (0 ∷ []) ∷ [];
  closed = [];
  err = none;
}

lives : Reach rpc fresh 0 answered
unfolding initialize_ws execute_locked with_lock pump_read delete store load
lives =
    next (next (next here (initializes (inl dialed) "w" (some 3) refl)) (executes calls refl))
      (reads (pos 12) none (inl (9 ∷ [])) refl)

-- The write of a second message fails.
abbrev failing : PersistentCalls
failing = record calls { xid = "x2"; write_err = some broken }

abbrev waiting : WsStep ℕ
waiting = record answered {
  endpoint = record endpoint {
    locked = true;
    inflight_msgs =
        ("x2", record { inflight_id = "x2"; original_id = some 7; time_sent = pos 10 }) ∷ [];
  };
}

lives_on : Reach rpc fresh 1 waiting
unfolding left_waiting store delete
lives_on = waits failing lives refl

Reach-payloads_example :
    payloads waiting.sent + length waiting.endpoint.inflight_msgs ≤ length waiting.written + 1
Reach-payloads_example = Reach-payloads rpc fresh 1 waiting refl refl lives_on
