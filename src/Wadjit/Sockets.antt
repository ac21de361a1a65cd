-- ===== src/Wadjit/Sockets.antt =====
-- A Wadjit that runs WebSocket endpoints beside HTTP endpoints: `AddWatcher` (wadjit.go) through
-- `Validate`, `Initialize` and `Task` of `WSEndpoint` (task_ws.go).
use wadjit.Prelude.{
  ℕ, String, Bool, true, false, ◌≡◌, ◌↔◌, sym, ap, ◌∙◌, Option, none, some, inl, inr, ◌⊎◌, arith,
  is_some, Option-cases,
}
use wadjit.Clock.{Time}
use wadjit.GoError.{GoError}
use wadjit.Outcome.{finishes, Finishes, Finishes-value}
use wadjit.Dns.Policy.{TtlResolver}
use wadjit.Ws.Endpoint.{WsEndpoint, WsStep, validate_ws}
use wadjit.Ws.JsonRpc.{JsonRpc}
use wadjit.Ws.Connection.{Dialed, is_persistent, initialize_ws}
use wadjit.Ws.OneHit.{OneHitCalls}
use wadjit.Ws.Persistent.{PersistentCalls}
use wadjit.Ws.Task.{ws_task, execute_task}
use wadjit.Ws.Answers.{IsFrom, IsAnswer, One}
use wadjit.Ws.Restoring.{IsConnected}
use wadjit.Ws.Hits.{heard, message_of, dialed_conn}
use wadjit.Ws.Ready.{IsIdle, IsServing, validate_ws-initialize_ws, execute_task-IsAnswer}
use wadjit.Watcher.{WatcherTask, Watcher, validate_watcher}
use wadjit.Wadjit.Tasks.{AnyTask, other_task, apply_default_dns_policy}
use wadjit.Wadjit.Registry.{find}
use wadjit.Wadjit.Manager.{TaskManager, Wadjit, job, defaulted, add_watcher}
use wadjit.Wadjit.Endpoints.{RunsHttp, AllOthers, AllRun, Starts}
use wadjit.Wadjit.Endpoints.Adding.{add_watcher-AllRun}

-- The interface's methods, at a WebSocket endpoint, are those of `WSEndpoint`. `dials` is what a dial of
-- a URL gives.
pub record RunsSockets {Ident : Type 0} (dials : Option String → Dialed ⊎ GoError)
    (k : WatcherTask (AnyTask (WsEndpoint Ident))) : Type 0 where
  pub xid : WsEndpoint Ident → String
  pub validates :
      (e : WsEndpoint Ident)
      → k.validate (other_task e)
        ≡ (other_task (validate_ws (xid e) e).0, (validate_ws (xid e) e).1)
  pub initializes :
      (id : String) (c : Option ℕ) (e : WsEndpoint Ident) (s : WsStep Ident)
      → initialize_ws (dials e.url) id c e ≡ finishes s
      → k.initialize id c (other_task e) ≡ (other_task s.endpoint, s.err)

-- A persistent endpoint is connected. Any other is a one-hit endpoint now, whose task sends one response
-- in each execution: the message that the library's calls give, or the error of one of them. It closes
-- the connection that it dials.
abbrev pub Serves :
    {Req Resp Ident : Type 0} → JsonRpc Req Resp Ident → Bool → String → WsEndpoint Ident → Type 0
Serves k true url e = IsConnected e url
Serves k false url e =
    (c : PersistentCalls) (o : OneHitCalls)
    → Finishes (execute_task k (ws_task e.mode) c o e) λ s.
      One (λ r. IsFrom e url r × IsAnswer r × (r.err ≡ s.err) × (message_of r ≡ heard o)) s.sent
      × (s.endpoint ≡ record e { locked = false })
      × (s.closed ≡ dialed_conn o)

abbrev pub Added :
    {Req Resp Ident : Type 0}
    → JsonRpc Req Resp Ident
    → String
    → WsEndpoint Ident
    → WsEndpoint Ident
    → Type 0
Added k id before e =
    (url : String) × (before.url ≡ some url)
    × (e.watcher_id ≡ id)
    × Serves k (is_persistent before.mode) url e

module _ {Req Resp Ident M : Type 0} (resolver : TtlResolver) (rpc : JsonRpc Req Resp Ident)
    (dials : Option String → Dialed ⊎ GoError) (k : WatcherTask (AnyTask (WsEndpoint Ident)))
    (tm : TaskManager M (AnyTask (WsEndpoint Ident))) (http : RunsHttp resolver k)
    (sockets : RunsSockets dials k) where
  IsServing-Serves :
      (persistent : Bool) (url : String) (e : WsEndpoint Ident)
      → IsServing persistent e url
      → Serves rpc persistent url e
  IsServing-Serves true url e i = i
  IsServing-Serves false url e i = λ c o. execute_task-IsAnswer rpc c o e url i

  valid_url :
      (xid : String) (e : WsEndpoint Ident)
      → (validate_ws xid e).1 ≡ none
      → (is_some e.url ≡ true) × ((validate_ws xid e).0.url ≡ e.url)
  unfolding validate_ws
  valid_url xid e h = ground arith

  socket-Starts :
      (id : String) (c : ℕ) (e : WsEndpoint Ident)
      → IsIdle (dials e.url) e
      → (k.validate (other_task e)).1 ≡ none
      → Starts resolver (Added rpc) k id c (other_task e)
  socket-Starts id c e idle h =
      let valid = (validate_ws (sockets.xid e) e).0 in
      let checked = valid_url (sockets.xid e) e (sym (ap (λ r. r.1) (sockets.validates e)) ∙ h) in
      elim (Option-cases e.url) [
        | inl no_url ↦ cc (no_url, checked.0)
        | inr (url, has_url) ↦
            let (s, made, ready) =
              Finishes-value _ _
                (validate_ws-initialize_ws (dials e.url) (sockets.xid e) id c e url has_url idle) in
            let same : initialize_ws (dials valid.url) id (some c) valid ≡ finishes s =
              ap (λ u. initialize_ws (dials u) id (some c) valid) checked.1 ∙ made in
            rw (sockets.validates e) (
              rw (sockets.initializes id (some c) valid s same) (
                (
                  url,
                  has_url,
                  ready.1,
                  IsServing-Serves (is_persistent e.mode) url s.endpoint ready.2,
                ),
                ready.0,
              ))
      ]

  -- Let the methods of the tasks be those of `HTTPEndpoint` and `WSEndpoint`, and let `AddWatcher` be
  -- called with a watcher that is valid once it has the default policy, whose identifier is not
  -- registered, and whose WebSocket endpoints are idle and, if persistent, can be dialed. Afterwards a
  -- watcher is registered under it whose tasks are those given. An execution of an HTTP endpoint,
  -- whatever the library gives to it, finishes with one response, a payload or an error, which names
  -- the watcher and the endpoint, and the guard rail of the endpoint's new manager observes the
  -- result; a persistent WebSocket endpoint is connected, and an execution of any other finishes with
  -- one response, a payload or an error, and closes the connection that it dials. `AddWatcher` reports
  -- no error exactly if the job can be scheduled.
  pub add_watcher-Added :
      (now : Time) (c : ℕ) (x : Watcher (AnyTask (WsEndpoint Ident)))
      (w : Wadjit (WsEndpoint Ident) M)
      → w.resp_gather_chan ≡ some c
      → AllOthers (λ e. IsIdle (dials e.url) e) x.tasks
      → (validate_watcher k (defaulted k tm w (some x))).1 ≡ none
      → find x.id w.watchers ≡ none
      → (y : Watcher (AnyTask (WsEndpoint Ident))) × (find x.id
            (add_watcher k tm now (some x) w).0.watchers
          ≡ some y)
        × AllRun resolver
            (Added rpc)
            x.id
            (apply_default_dns_policy w.has_default_dns_policy w.default_dns_policy x).tasks
            y.tasks
        × (((add_watcher k tm now (some x) w).1 ≡ none)
            ↔ ((tm.schedule_job (job now y) w.task_manager).1 ≡ none))
  add_watcher-Added =
      add_watcher-AllRun resolver k tm http (λ e. IsIdle (dials e.url) e) (Added rpc) socket-Starts
