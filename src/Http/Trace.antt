-- ===== src/Http/Trace.antt =====
-- `traceRequest` (task_http.go): the callbacks of `httptrace.ClientTrace`, which store the times of a
-- request's phases in a `traceTimes` (timing.go), and its `Snapshot`.
use wadjit.Prelude.{String, Option, none, some, List, [], ◌∷◌}
use wadjit.Clock.{Time}
use wadjit.Timing.{RequestTimestamps, no_timestamps}

pub data TraceEvent : Type 0 where
  get_conn : TraceEvent
  -- the address of the connection's other end, if there is a connection
  got_conn : Option String → TraceEvent
  dns_start dns_done connect_start connect_done : TraceEvent
  tls_handshake_start tls_handshake_done wrote_request got_first_response_byte : TraceEvent

-- The atomic times, and the channel for one address: a send to it when it is full is dropped.
pub record TraceTimes : Type 0 where
  pub times : RequestTimestamps
  pub addr_chan : Option (Option String)

-- A nil address in the channel is not told from one that is not there: both give no address.
offer : Option String → Option (Option String) → Option (Option String)
offer addr none = some addr
offer addr (some old) = some old

on_event : TraceEvent → Time → TraceTimes → TraceTimes
unfolding offer
on_event get_conn t s = record s { times = record (s.times) { start = t } }
on_event (got_conn none) t s = s
on_event (got_conn (some addr)) t s = record s { addr_chan = offer (some addr) s.addr_chan }
on_event dns_start t s = record s { times = record (s.times) { dns_start = t } }
on_event dns_done t s = record s { times = record (s.times) { dns_done = t } }
on_event connect_start t s = record s { times = record (s.times) { conn_start = t } }
on_event connect_done t s = record s { times = record (s.times) { conn_done = t } }
on_event tls_handshake_start t s = record s { times = record (s.times) { tls_start = t } }
on_event tls_handshake_done t s = record s { times = record (s.times) { tls_done = t } }
on_event wrote_request t s = record s { times = record (s.times) { wrote_done = t } }
on_event got_first_response_byte t s = record s { times = record (s.times) { first_byte = t } }

unfoldable pub trace_request : List (TraceEvent × Time) → TraceTimes → TraceTimes
unfolding on_event
trace_request [] s = s
trace_request ((e, t) ∷ l) s = trace_request l (on_event e t s)

abbrev pub no_trace : TraceTimes
no_trace = record { times = no_timestamps; addr_chan = none }

-- `Snapshot` loads the times one by one.
abbrev pub snapshot : TraceTimes → RequestTimestamps
snapshot s = s.times
