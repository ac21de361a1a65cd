-- ===== src/Response.antt =====
-- response.go: the responses of HTTP and WebSocket tasks. The body of an HTTP response is read in one
-- of two ways: whole by `Data`, or as a stream by `Reader`.
pub mod Reading
pub mod Fast
pub mod Watcher
pub mod Text
use wadjit.Prelude.{
  ℕ, String, Bool, true, false, not, ◌&&◌, Option, none, some, List, [], length, is_some,
  if◌then◌else◌, ℤ, pos, ltb_ℤ,
}
use wadjit.Clock.{Time, Duration}
use wadjit.GoError.{GoError, message}
use wadjit.Header.{HttpHeader}
use wadjit.Dns.Address.{Addr}
use wadjit.Dns.Policy.{DnsRefreshMode, DnsDecision}
use wadjit.Timing.{RequestTimestamps, RequestTimes, no_timestamps, time_data_from_timestamps}

-- The body of a response from the HTTP library: what a read to its end gives from here on, whether it
-- was closed, and the error of a read after that, if it is one.
pub record Body : Type 0 where
  pub unread : List ℕ
  pub read_err : Option GoError
  pub closed : Bool
  pub closed_err : Option GoError

-- `io.ReadAll`
abbrev pub read_all : Body → List ℕ × Option GoError
read_all b = if b.closed then ([], b.closed_err) else (b.unread, b.read_err)

-- A reader that the caller gets: over the bytes in memory, or over the body itself.
pub data ResponseReader : Type 0 where
  in_memory : List ℕ → ResponseReader
  streaming : ResponseReader

-- A `net.Addr` is its text; nil is `none`.
pub record HttpTaskResponse : Type 0 where
  pub remote_addr : Option String
  pub status_code : ℤ
  pub header : HttpHeader
  pub content_length : ℤ
  pub body : Option Body
  pub once_done : Bool
  pub data_once : Bool
  pub body_bytes : List ℕ
  pub data_err : Option GoError
  pub timestamps : RequestTimestamps
  pub dns_decision : Option DnsDecision
  pub used_reader : Bool

abbrev pub new_http_task_response :
    Option String → ℤ → HttpHeader → ℤ → Option Body → Option DnsDecision → HttpTaskResponse
new_http_task_response remote_addr status header content_length body decision = record {
  remote_addr = remote_addr;
  status_code = status;
  header = header;
  content_length = content_length;
  body = body;
  once_done = false;
  data_once = false;
  body_bytes = [];
  data_err = none;
  timestamps = no_timestamps;
  dns_decision = decision;
  used_reader = false;
}

-- After the read the body is at its end and closed, with or without an error.
finished : Body → Body
finished b = record b { unread = []; closed = true }

read_open_body : Time → Body → HttpTaskResponse → HttpTaskResponse
unfolding finished
read_open_body now b h =
    let (bytes, err) = read_all b in
    let h' : HttpTaskResponse = record h { body = some (finished b) } in
    elim err [
      | some e ↦ record h' { data_err = some e }
      | none ↦ record h' {
        body_bytes = bytes;
        data_once = true;
        timestamps = record (h.timestamps) { data_done = now };
      }
    ]

unfoldable pub read_body : Time → HttpTaskResponse → HttpTaskResponse
unfolding read_open_body
read_body now h = elim h.body [
  | none ↦ record h { data_err = some (message "http.Response.Body is nil") }
  | some b ↦ read_open_body now b h
]

unfoldable pub close_response : HttpTaskResponse → HttpTaskResponse
close_response h = elim h.body [
  | none ↦ h
  | some b ↦ record h { body = some (record b { closed = true }) }
]

-- The values that `Data` returns together.
pub record DataResult : Type 0 where
  pub bytes : List ℕ
  pub err : Option GoError

run_once : Time → HttpTaskResponse → HttpTaskResponse
unfolding read_body
run_once now h = if h.once_done then h else read_body now (record h { once_done = true })

unfoldable pub http_data : Time → HttpTaskResponse → HttpTaskResponse × DataResult
unfolding run_once
http_data now h =
    if h.used_reader
    then (
      h,
      record {
        bytes = [];
        err = some (message "cannot call Data() after Reader() was already used");
      },
    )
    else let h' = run_once now h in (h', record { bytes = h'.body_bytes; err = h'.data_err })

pub record ReaderResult : Type 0 where
  pub reader : Option ResponseReader
  pub err : Option GoError

memory_reader : HttpTaskResponse → ReaderResult
memory_reader h = elim h.data_err [
  | some e ↦ record { reader = none; err = some e }
  | none ↦ record { reader = some (in_memory h.body_bytes); err = none }
]

body_reader : HttpTaskResponse → ReaderResult
body_reader h = elim h.body [
  | none ↦ record { reader = none; err = some (message "http.Response.Body is nil") }
  | some b ↦ record { reader = some streaming; err = none }
]

-- What `Reader` does after its tests of `dataDone` and `usedReader`. Each is atomic, but another call can
-- come in between them if it overlaps this one.
unfoldable pub take_body : HttpTaskResponse → HttpTaskResponse × ReaderResult
unfolding body_reader
take_body h = (record h { used_reader = true }, body_reader h)

-- A call that no other call overlaps.
unfoldable pub http_reader : HttpTaskResponse → HttpTaskResponse × ReaderResult
unfolding memory_reader take_body
http_reader h =
    if h.data_once
    then (h, memory_reader h)
    else if h.used_reader
    then (h, record { reader = none; err = some (message "reader already called") })
    else take_body h

pub record DnsMetadata : Type 0 where
  pub mode : DnsRefreshMode
  pub ttl : Duration
  pub expires_at : Time
  pub resolved_addrs : List Addr
  pub lookup_duration : Duration
  pub guard_rail_triggered : Bool
  pub fallback_used : Bool
  pub err : Option GoError

unfoldable pub dns_metadata : DnsDecision → DnsMetadata
dns_metadata d = record {
  mode = d.mode;
  ttl = d.ttl;
  expires_at = d.expires_at;
  resolved_addrs = d.resolved_addrs;
  lookup_duration = d.lookup_duration;
  guard_rail_triggered = d.guard_rail_triggered;
  fallback_used = d.fallback_used;
  err = d.err;
}

-- A nil header is `none`.
pub record TaskResponseMetadata : Type 0 where
  pub remote_addr : Option String
  pub status_code : ℤ
  pub headers : Option HttpHeader
  pub size : ℤ
  pub time_data : RequestTimes
  pub dns : Option DnsMetadata

-- The policy's own lookup time stands in where the trace has none.
with_lookup_time : DnsDecision → RequestTimes → RequestTimes
with_lookup_time d t =
    if not (is_some t.dns_lookup) && ltb_ℤ (pos 0) d.lookup_duration
    then record t { dns_lookup = some d.lookup_duration }
    else t

unfoldable pub http_metadata : HttpTaskResponse → TaskResponseMetadata
unfolding dns_metadata with_lookup_time time_data_from_timestamps
http_metadata h = elim h.dns_decision [
  | none ↦ record {
    remote_addr = h.remote_addr;
    status_code = h.status_code;
    headers = some h.header;
    size = h.content_length;
    time_data = time_data_from_timestamps h.timestamps;
    dns = none;
  }
  | some d ↦ record {
    remote_addr = h.remote_addr;
    status_code = h.status_code;
    headers = some h.header;
    size = h.content_length;
    time_data = with_lookup_time d (time_data_from_timestamps h.timestamps);
    dns = some (dns_metadata d);
  }
]
