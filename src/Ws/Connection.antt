-- ===== src/Ws/Connection.antt =====
-- Connecting, reconnecting, initialising and closing a `WSEndpoint` (task_ws.go). What the WebSocket
-- library returns is an argument of the call.
use wadjit.Prelude.{
  ℕ, suc, String, Bool, true, false, Option, none, some, if◌then◌else◌, ◌⊎◌, inl, inr, ◌==◌,
}
use wadjit.GoError.{GoError, message, wrapped}
use wadjit.Outcome.{Outcome, finishes, crashes, blocks, ◌>>=◌}
use wadjit.Ws.Endpoint.{
  WsEndpointMode, mode_unknown, one_hit_text, persistent_json_rpc, other_mode, WsEndpoint, WsStep,
  live, canceled, done, with_lock, with_closed,
}

-- A connection and the address of its other end.
pub record Dialed : Type 0 where
  pub conn : ℕ
  pub remote_addr : Option String

-- What `WriteControl` and `Close` of the connection return.
pub record Closing : Type 0 where
  pub control_err : Option GoError
  pub close_err : Option GoError

abbrev pub is_persistent : WsEndpointMode → Bool
is_persistent persistent_json_rpc = true
is_persistent mode_unknown = false
is_persistent one_hit_text = false
is_persistent (other_mode n) = false

-- The error of closing the connection that is still there ends the call.
reconnect_closing : Option GoError → Bool → Option GoError
reconnect_closing close_err true = none
reconnect_closing close_err false = close_err

module _ {Ident : Type 0} where
  -- `e.cancel()` panics if the function is nil.
  cancel : WsEndpoint Ident → Outcome (WsStep Ident)
  cancel e = elim e.ctx [ none ↦ crashes | some c ↦ done none (record e { ctx = some canceled }) ]

  close_open : ℕ → Closing → WsEndpoint Ident → Outcome (WsStep Ident)
  unfolding cancel
  close_open c r e = elim r.control_err [
    | some err ↦ done (some err) e
    | none ↦ elim r.close_err [
      | some err ↦ with_closed c (done (some err) e)
      | none ↦ with_closed c (cancel (record e { conn = none }))
    ]
  ]

  close_locked : Closing → WsEndpoint Ident → Outcome (WsStep Ident)
  unfolding close_open
  close_locked r e = elim e.conn [ none ↦ done none e | some c ↦ close_open c r e ]

  unfoldable pub close_ws : Closing → WsEndpoint Ident → Outcome (WsStep Ident)
  unfolding close_locked with_lock
  close_ws r e = with_lock (close_locked r) e

  close_conn_locked : Option GoError → WsEndpoint Ident → Outcome (WsStep Ident)
  close_conn_locked close_err e = elim e.conn [
    | none ↦ done none e
    | some c ↦ with_closed c (done close_err (record e { conn = none }))
  ]

  unfoldable pub close_conn : Option GoError → WsEndpoint Ident → Outcome (WsStep Ident)
  unfolding close_conn_locked with_lock
  close_conn close_err e = with_lock (close_conn_locked close_err) e

  -- `e.URL.String()` panics on a nil URL.
  dial_connect : Dialed ⊎ GoError → WsEndpoint Ident → Outcome (WsStep Ident)
  dial_connect dialed e = elim e.url [
    | none ↦ crashes
    | some u ↦ elim dialed [
      | inr err ↦ done (some err) e
      | inl d ↦
          done none
            (record e { conn = some d.conn; remote_addr = d.remote_addr; pumps = suc e.pumps })
    ]
  ]

  connect_locked : Dialed ⊎ GoError → WsEndpoint Ident → Outcome (WsStep Ident)
  unfolding dial_connect
  connect_locked dialed e = elim e.conn [
    | some c ↦ done (some (message "connection already established")) e
    | none ↦ dial_connect dialed e
  ]

  unfoldable pub connect : Dialed ⊎ GoError → WsEndpoint Ident → Outcome (WsStep Ident)
  unfolding connect_locked with_lock
  connect dialed e =
      if is_persistent e.mode
      then with_lock (connect_locked dialed) e
      else done (some (message "cannot establish long lived connection for non-long mode")) e

  -- A connection of the library has an underlying network connection.
  unfoldable pub nil_conn : WsEndpoint Ident → Outcome Bool
  nil_conn e = if e.locked then blocks else finishes (elim e.conn [ none ↦ true | some c ↦ false ])

  -- The pump that is started is counted. Which connection it reads is not kept.
  unfoldable pub dial_reconnect : Dialed ⊎ GoError → WsEndpoint Ident → Outcome (WsStep Ident)
  dial_reconnect dialed e = elim e.url [
    | none ↦ crashes
    | some u ↦ elim dialed [
      | inr err ↦
          done (some (wrapped "failed to dial when reconnecting" err)) (record e { conn = none })
      | inl d ↦ done none (record e { conn = some d.conn; pumps = suc e.pumps })
    ]
  ]

  -- `e.wg.Wait()`: a read pump that still runs has to end by a step of its own.
  unfoldable pub wait_pumps :
      (WsEndpoint Ident → Outcome (WsStep Ident)) → WsEndpoint Ident → Outcome (WsStep Ident)
  wait_pumps f e = if e.pumps == 0 then f e else blocks

  -- The connection that is still there is closed.
  closes_open : WsEndpoint Ident → Outcome (WsStep Ident) → Outcome (WsStep Ident)
  closes_open e o = elim e.conn [ none ↦ o | some c ↦ with_closed c o ]

  unfoldable pub reconnect :
      Option GoError → Dialed ⊎ GoError → WsEndpoint Ident → Outcome (WsStep Ident)
  unfolding nil_conn reconnect_closing wait_pumps dial_reconnect with_lock closes_open
  reconnect close_err dialed e =
      if is_persistent e.mode
      then (do
        is_nil ← nil_conn e
        closes_open e (elim (reconnect_closing close_err is_nil) [
          | some err ↦ done (some (wrapped "failed to close connection" err)) e
          | none ↦ wait_pumps (with_lock (dial_reconnect dialed)) e
        ]))
      else done (some (message "can only reconnect for long-lived connections")) e

  as_initialize : Outcome (WsStep Ident) → Outcome (WsStep Ident)
  as_initialize (finishes s) = elim s.err [
    | none ↦ finishes s
    | some err ↦
        finishes (record s { err = some (wrapped "failed to connect when initializing" err) })
  ]
  as_initialize crashes = crashes
  as_initialize blocks = blocks

  initialize_mode : Dialed ⊎ GoError → WsEndpointMode → WsEndpoint Ident → Outcome (WsStep Ident)
  unfolding connect as_initialize
  initialize_mode dialed persistent_json_rpc e = as_initialize (connect dialed e)
  initialize_mode dialed one_hit_text e = done none e
  initialize_mode dialed mode_unknown e =
      if e.locked then blocks else done none (record e { mode = one_hit_text })
  initialize_mode dialed (other_mode n) e =
      if e.locked then blocks else done none (record e { mode = one_hit_text })

  unfoldable pub initialize_ws :
      Dialed ⊎ GoError → String → Option ℕ → WsEndpoint Ident → Outcome (WsStep Ident)
  unfolding initialize_mode
  initialize_ws dialed watcher_id response_channel e =
      if e.locked
      then blocks
      else initialize_mode dialed e.mode
          (record e { watcher_id = watcher_id; resp_chan = response_channel; ctx = some live })
