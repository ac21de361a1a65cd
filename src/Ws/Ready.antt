-- ===== src/Ws/Ready.antt =====
-- A WebSocket endpoint that was initialised, and the task that is made of it (task_ws.go).
use wadjit.Prelude.{
  ℕ, String, Bool, true, false, not, ◌||◌, ◌≡◌, ap, none, some, ◌⊎◌, inl, inr, arith, is_some,
}
use wadjit.GoError.{GoError}
use wadjit.Outcome.{Finishes}
use wadjit.Ws.Endpoint.{WsEndpoint, live, one_hit_text, validate_ws}
use wadjit.Ws.JsonRpc.{JsonRpc}
use wadjit.Ws.Connection.{Dialed, is_persistent, initialize_ws}
use wadjit.Ws.OneHit.{OneHitCalls, execute_one_hit}
use wadjit.Ws.Persistent.{PersistentCalls}
use wadjit.Ws.Task.{ws_task, execute_task}
use wadjit.Ws.Answers.{IsFrom, IsAnswer, One}
use wadjit.Ws.Restoring.{IsConnected}
use wadjit.Ws.Hits.{heard, message_of, dialed_conn, execute_one_hit-IsAnswer}

abbrev pub has_dialed : Dialed ⊎ GoError → Bool
has_dialed (inl d) = true
has_dialed (inr err) = false

-- The endpoint is not in use, and a dial that its initialisation makes succeeds.
pub record IsIdle {Ident : Type 0} (dialed : Dialed ⊎ GoError) (e : WsEndpoint Ident) : Type 0 where
  pub free : e.locked ≡ false
  pub no_conn : e.conn ≡ none
  pub can_dial : (not (is_persistent e.mode) || has_dialed dialed) ≡ true

-- What one-hit endpoints are like once they are initialised.
pub record IsOneHit {Ident : Type 0} (e : WsEndpoint Ident) (url : String) : Type 0 where
  pub free : e.locked ≡ false
  pub is_live : e.ctx ≡ some live
  pub has_url : e.url ≡ some url
  pub has_chan : is_some e.resp_chan ≡ true
  pub no_conn : e.conn ≡ none
  pub is_mode : e.mode ≡ one_hit_text

-- By whether the mode is persistent.
abbrev pub IsServing : {Ident : Type 0} → Bool → WsEndpoint Ident → String → Type 0
IsServing true e url = IsConnected e url
IsServing false e url = IsOneHit e url

module _ {Ident : Type 0} (dialed : Dialed ⊎ GoError) (xid id : String) (c : ℕ)
    (e : WsEndpoint Ident) (url : String) where
  pub validate_ws-initialize_ws :
      e.url ≡ some url
      → IsIdle dialed e
      → Finishes (initialize_ws dialed id (some c) (validate_ws xid e).0) λ s.
        (s.err ≡ none)
        × (s.endpoint.watcher_id ≡ id)
        × IsServing (is_persistent e.mode) s.endpoint url
  unfolding validate_ws initialize_ws
  validate_ws-initialize_ws u i = ground (arith, i.free, i.no_conn, i.can_dial)

module _ {Req Resp Ident : Type 0} (k : JsonRpc Req Resp Ident) where
  task-IsOneHit :
      (c : PersistentCalls) (o : OneHitCalls) (e : WsEndpoint Ident) (url : String)
      → IsOneHit e url
      → execute_task k (ws_task e.mode) c o e ≡ execute_one_hit o e
  unfolding execute_task ws_task
  task-IsOneHit c o e url i = ground (arith, i.is_mode)

  -- The task of a one-hit endpoint sends one response in each execution, and closes what it dials.
  pub execute_task-IsAnswer :
      (c : PersistentCalls) (o : OneHitCalls) (e : WsEndpoint Ident) (url : String)
      → IsOneHit e url
      → Finishes (execute_task k (ws_task e.mode) c o e) λ s.
        One (λ r. IsFrom e url r × IsAnswer r × (r.err ≡ s.err) × (message_of r ≡ heard o)) s.sent
        × (s.endpoint ≡ record e { locked = false })
        × (s.closed ≡ dialed_conn o)
  execute_task-IsAnswer c o e url i = rw (task-IsOneHit c o e url i) (
      execute_one_hit-IsAnswer o e url
        (record {
          free = i.free;
          has_url = i.has_url;
          has_ctx = ap is_some i.is_live;
          has_chan = i.has_chan;
        })
        i.no_conn i.is_live)
