-- ===== src/Timing.antt =====
-- timing.go: the timestamps of a request's phases, the durations that are reported of them, and the
-- reader that records when a body has been read.
pub mod Durations
pub mod Finish
use wadjit.Prelude.{
  ℕ, Bool, true, false, not, ◌&&◌, Option, none, some, List, [], ◌∷◌, if◌then◌else◌, pos,
}
use wadjit.Clock.{Time, Duration, zero_time, is_zero, sub}
use wadjit.GoError.{GoError, is?, eof_sentinel}

pub record RequestTimestamps : Type 0 where
  pub start : Time
  pub dns_start : Time
  pub dns_done : Time
  pub conn_start : Time
  pub conn_done : Time
  pub tls_start : Time
  pub tls_done : Time
  pub wrote_done : Time
  pub first_byte : Time
  pub data_done : Time

abbrev pub no_timestamps : RequestTimestamps
no_timestamps = record {
  start = zero_time;
  dns_start = zero_time;
  dns_done = zero_time;
  conn_start = zero_time;
  conn_done = zero_time;
  tls_start = zero_time;
  tls_done = zero_time;
  wrote_done = zero_time;
  first_byte = zero_time;
  data_done = zero_time;
}

-- A duration that is a nil pointer in the source is `none`.
pub record RequestTimes : Type 0 where
  pub sent_at : Time
  pub received_at : Time
  pub latency : Duration
  pub request_time_total : Option Duration
  pub dns_lookup : Option Duration
  pub tcp_connect : Option Duration
  pub tls_handshake : Option Duration
  pub server_processing : Option Duration
  pub data_transfer : Option Duration

-- The time from one timestamp to another, if both are set.
between : Time → Time → Option Duration
between from to = if not (is_zero from) && not (is_zero to) then some (sub to from) else none

or_zero : Option Duration → Duration
or_zero none = pos 0
or_zero (some d) = d

unfoldable pub time_data_from_timestamps : RequestTimestamps → RequestTimes
unfolding between or_zero
time_data_from_timestamps t = record {
  sent_at = t.start;
  received_at = t.first_byte;
  latency = or_zero (between t.start t.first_byte);
  request_time_total = between t.start t.data_done;
  dns_lookup = between t.dns_start t.dns_done;
  tcp_connect = between t.conn_start t.conn_done;
  tls_handshake = between t.tls_start t.tls_done;
  server_processing = between t.wrote_done t.first_byte;
  data_transfer = between t.first_byte t.data_done;
}

-- The reader over a response's body: whether its `once` has run, and the timestamps of the response,
-- which the function that it runs writes.
pub record TimedReadCloser : Type 0 where
  pub once_done : Bool
  pub timestamps : RequestTimestamps

-- `doneFn`: the time is set if it has not been set yet.
set_data_done : Time → RequestTimestamps → RequestTimestamps
set_data_done now t = if is_zero t.data_done then record t { data_done = now } else t

finish : Time → TimedReadCloser → TimedReadCloser
unfolding set_data_done
finish now r =
    if r.once_done
    then r
    else record { once_done = true; timestamps = set_data_done now r.timestamps }

-- `read_err` is the error of the body's own `Read`, which is returned too.
unfoldable pub read : Time → Option GoError → TimedReadCloser → TimedReadCloser
unfolding finish is?
read now read_err r = if is? read_err eof_sentinel then finish now r else r

unfoldable pub close : Time → TimedReadCloser → TimedReadCloser
unfolding finish
close now r = finish now r
