-- ===== src/Ws/OneHit.antt =====
-- `wsOneHit` (task_ws.go): a connection for each message, whose answer is read once.
use wadjit.Prelude.{ℕ, String, Option, none, some, List, [], ◌∷◌, ◌⊎◌, inl, inr}
use wadjit.Clock.{Time}
use wadjit.GoError.{GoError, message, wrapped}
use wadjit.Outcome.{Outcome, crashes}
use wadjit.Timing.{RequestTimestamps, no_timestamps}
use wadjit.Response.Watcher.{ws_response, new_ws_task_response}
use wadjit.Ws.Endpoint.{
  WsEndpoint, WsStep, live, canceled, done, send, also, send_error, with_lock, with_closed,
}
use wadjit.Ws.Connection.{Dialed}

-- What the library and the clock give to one execution: the dialed connection, the errors of writing
-- and reading, the message that is read, and the times around the three calls.
pub record OneHitCalls : Type 0 where
  pub dialed : Dialed ⊎ GoError
  pub write_err : Option GoError
  pub received : List ℕ ⊎ GoError
  pub started_at : Time
  pub dialed_at : Time
  pub wrote_at : Time
  pub read_at : Time

-- The times that are taken one right after another are one time.
started : Time → RequestTimestamps
started t = record no_timestamps { start = t; dns_start = t; conn_start = t; tls_start = t }

establish_connection : OneHitCalls → (Dialed × RequestTimestamps) ⊎ GoError
unfolding started
establish_connection c = elim c.dialed [
  | inr err ↦ inr (wrapped "failed to dial" err)
  | inl d ↦ inl (
    d,
    record (started c.started_at) {
      dns_done = c.dialed_at;
      conn_done = c.dialed_at;
      tls_done = c.dialed_at;
    },
  )
]

-- What is written is the endpoint's payload, if the write does not fail.
written_by : OneHitCalls → List ℕ → List (List ℕ)
written_by c payload = elim c.write_err [ some err ↦ [] | none ↦ payload ∷ [] ]

send_and_receive_message : OneHitCalls → RequestTimestamps → (RequestTimestamps × List ℕ) ⊎ GoError
send_and_receive_message c t = elim c.write_err [
  | some err ↦ inr (wrapped "failed to write message" err)
  | none ↦ elim c.received [
    | inr err ↦ inr (wrapped "failed to read message" err)
    | inl bytes ↦
        inl (
          record t { wrote_done = c.wrote_at; first_byte = c.read_at; data_done = c.read_at },
          bytes,
        )
  ]
]

module _ {Ident : Type 0} where
  answered :
      Dialed → RequestTimestamps × List ℕ → String → WsEndpoint Ident → Outcome (WsStep Ident)
  unfolding send
  answered d (timestamps, bytes) url e =
      send
        (record {
          task_id = e.id;
          watcher_id = e.watcher_id;
          url = url;
          err = none;
          payload = some (
              ws_response
                (record (new_ws_task_response d.remote_addr bytes) { timestamps = timestamps }));
        })
        none e

  converse :
      OneHitCalls → String → Dialed × RequestTimestamps → WsEndpoint Ident → Outcome (WsStep Ident)
  unfolding send_and_receive_message send_error answered written_by also
  converse c url (d, t) e =
      also
        (record {
          endpoint = e;
          sent = [];
          written = written_by c e.payload;
          closed = [];
          err = none;
        })
        (elim (send_and_receive_message c t) [
          | inr err ↦ send_error err url e
          | inl m ↦ answered d m url e
        ])

  hit_live : OneHitCalls → String → WsEndpoint Ident → Outcome (WsStep Ident)
  unfolding establish_connection send_error converse
  hit_live c url e = elim (establish_connection c) [
    | inr err ↦ send_error err url e
    | inl d ↦ with_closed d.0.conn (converse c url d e)
  ]

  hit_locked : OneHitCalls → WsEndpoint Ident → Outcome (WsStep Ident)
  unfolding hit_live
  hit_locked c e = elim e.url [
    | none ↦ crashes
    | some url ↦ elim e.ctx [
      | none ↦ crashes
      | some canceled ↦ done none e
      | some live ↦ hit_live c url e
    ]
  ]

  -- The errors of the calls that close the connection, as the function returns, are dropped.
  unfoldable pub execute_one_hit : OneHitCalls → WsEndpoint Ident → Outcome (WsStep Ident)
  unfolding hit_locked with_lock
  execute_one_hit c e = elim e.conn [
    | some conn ↦ done (some (message "connection is already open")) e
    | none ↦ with_lock (hit_locked c) e
  ]
