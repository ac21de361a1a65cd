-- ===== src/Ws/Endpoint.antt =====
-- The state of a `WSEndpoint`, its mutex, its response channel and its in-flight messages.
use wadjit.Prelude.{
  ℕ, String, Bool, true, false, Option, none, some, List, [], ◌∷◌, ◌++◌, str_eq, if◌then◌else◌, ℤ,
}
use wadjit.Clock.{Time}
use wadjit.GoError.{GoError, message}
use wadjit.Header.{HttpHeader}
use wadjit.Outcome.{Outcome, finishes, crashes, blocks}
use wadjit.Response.Watcher.{WatcherResponse, error_response}

pub data WsEndpointMode : Type 0 where
  mode_unknown one_hit_text persistent_json_rpc : WsEndpointMode
  other_mode : ℤ → WsEndpointMode

-- `Ident` is the type of what a JSON-RPC identifier can be; a nil identifier is `none`.
pub record WsInflightMessage (Ident : Type 0) : Type 0 where
  pub inflight_id : String
  pub original_id : Option Ident
  pub time_sent : Time

pub data Context : Type 0 where
  live canceled : Context

-- A connection is a number. `pumps` is the count of the wait group: the read pumps that run. The
-- context and its cancel function are set together.
pub record WsEndpoint (Ident : Type 0) : Type 0 where
  pub locked : Bool
  pub header : Option HttpHeader
  pub mode : WsEndpointMode
  pub payload : List ℕ
  pub url : Option String
  pub id : String
  pub conn : Option ℕ
  pub remote_addr : Option String
  pub inflight_msgs : List (String × WsInflightMessage Ident)
  pub pumps : ℕ
  pub watcher_id : String
  pub resp_chan : Option ℕ
  pub ctx : Option Context

-- What a call leaves: the endpoint, the responses that it has sent, the messages that it has written to
-- the connection and the connections whose `Close` it has called, in order, and its error.
pub record WsStep (Ident : Type 0) : Type 0 where
  pub endpoint : WsEndpoint Ident
  pub sent : List WatcherResponse
  pub written : List (List ℕ)
  pub closed : List ℕ
  pub err : Option GoError

module _ {Ident : Type 0} where
  abbrev pub done : Option GoError → WsEndpoint Ident → Outcome (WsStep Ident)
  done err e = finishes (record { endpoint = e; sent = []; written = []; closed = []; err = err })

  -- A send on a nil channel blocks for ever. The receiver is taken to make room in the channel.
  unfoldable pub send : WatcherResponse → Option GoError → WsEndpoint Ident → Outcome (WsStep Ident)
  send response err e = elim e.resp_chan [
    | none ↦ blocks
    | some c ↦
        finishes
          (record { endpoint = e; sent = response ∷ []; written = []; closed = []; err = err })
  ]

  -- What a call sends and writes is what its first part and the rest do.
  unfoldable pub also : WsStep Ident → Outcome (WsStep Ident) → Outcome (WsStep Ident)
  also s (finishes t) = finishes (record t {
    sent = s.sent ++ t.sent;
    written = s.written ++ t.written;
    closed = s.closed ++ t.closed;
  })
  also s crashes = crashes
  also s blocks = blocks

  -- A call that has closed a connection and goes on.
  abbrev pub with_closed : ℕ → Outcome (WsStep Ident) → Outcome (WsStep Ident)
  with_closed conn (finishes s) = finishes (record s { closed = conn ∷ s.closed })
  with_closed conn crashes = crashes
  with_closed conn blocks = blocks

  -- The errors of the response and of the call are the same.
  unfoldable pub send_error : GoError → String → WsEndpoint Ident → Outcome (WsStep Ident)
  unfolding send error_response
  send_error err url e = send (error_response err e.id e.watcher_id url) (some err) e

  unlocked : Outcome (WsStep Ident) → Outcome (WsStep Ident)
  unlocked (finishes s) = finishes (record s { endpoint = record (s.endpoint) { locked = false } })
  unlocked crashes = crashes
  unlocked blocks = blocks

  -- `e.mu.Lock(); defer e.mu.Unlock()`: Go's mutex is not reentrant.
  unfoldable pub with_lock :
      (WsEndpoint Ident → Outcome (WsStep Ident)) → WsEndpoint Ident → Outcome (WsStep Ident)
  unfolding unlocked
  with_lock f e = if e.locked then blocks else unlocked (f (record e { locked = true }))

  -- `sync.Map`
  unfoldable pub load :
      String → List (String × WsInflightMessage Ident) → Option (WsInflightMessage Ident)
  load key [] = none
  load key ((k, v) ∷ l) = if str_eq k key then some v else load key l

  unfoldable pub delete :
      String → List (String × WsInflightMessage Ident) → List (String × WsInflightMessage Ident)
  delete key [] = []
  delete key ((k, v) ∷ l) = let rest = delete key l in if str_eq k key then rest else (k, v) ∷ rest

  unfoldable pub store :
      String
      → WsInflightMessage Ident
      → List (String × WsInflightMessage Ident)
      → List (String × WsInflightMessage Ident)
  unfolding delete
  store key v l = (key, v) ∷ delete key l

abbrev pub new_ws_endpoint :
    {Ident : Type 0}
    → Option String
    → Option HttpHeader
    → WsEndpointMode
    → List ℕ
    → String
    → WsEndpoint Ident
new_ws_endpoint url header mode payload id = record {
  locked = false;
  header = header;
  mode = mode;
  payload = payload;
  url = url;
  id = id;
  conn = none;
  remote_addr = none;
  inflight_msgs = [];
  pumps = 0;
  watcher_id = "";
  resp_chan = none;
  ctx = none;
}

-- `xid` is the identifier that `xid.New().String()` gives.
unfoldable pub validate_ws :
    {Ident : Type 0} → String → WsEndpoint Ident → WsEndpoint Ident × Option GoError
validate_ws xid e = elim e.url [
  | none ↦ (e, some (message "URL is nil"))
  | some u ↦ (
    record e {
      header = elim e.header [ none ↦ some [] | some h ↦ some h ];
      id = if str_eq e.id "" then xid else e.id;
    },
    none,
  )
]
