-- ===== src/Response/Watcher.antt =====
-- The responses that a watcher sends (response.go, task.go): an error or a payload, which is that of an
-- HTTP task, of a WebSocket task, or of an HTTP request that failed.
use wadjit.Prelude.{ℕ, String, ◌≡◌, refl, Option, none, some, List, [], length, arith, pos}
use wadjit.Clock.{Time, zero_time}
use wadjit.GoError.{GoError, message}
use wadjit.Dns.Policy.{DnsDecision}
use wadjit.Timing.{RequestTimestamps, no_timestamps, time_data_from_timestamps}
use wadjit.Response.{
  HttpTaskResponse, DataResult, ReaderResult, in_memory, TaskResponseMetadata, http_data,
  http_reader, http_metadata, close_response, dns_metadata,
}

pub record WsTaskResponse : Type 0 where
  pub remote_addr : Option String
  pub message_bytes : List ℕ
  pub timestamps : RequestTimestamps

abbrev pub new_ws_task_response : Option String → List ℕ → WsTaskResponse
new_ws_task_response remote_addr bytes = record {
  remote_addr = remote_addr;
  message_bytes = bytes;
  timestamps = no_timestamps;
}

-- The types that implement `TaskResponse`.
pub data TaskResponse : Type 0 where
  http_response : HttpTaskResponse → TaskResponse
  ws_response : WsTaskResponse → TaskResponse
  http_response_error : Option DnsDecision → TaskResponse

abbrev no_metadata : TaskResponseMetadata
no_metadata = record {
  remote_addr = none;
  status_code = pos 0;
  headers = none;
  size = pos 0;
  time_data = record {
    sent_at = zero_time;
    received_at = zero_time;
    latency = pos 0;
    request_time_total = none;
    dns_lookup = none;
    tcp_connect = none;
    tls_handshake = none;
    server_processing = none;
    data_transfer = none;
  };
  dns = none;
}

unfoldable pub payload_data : Time → TaskResponse → TaskResponse × DataResult
payload_data now (http_response h) = let (h', r) = http_data now h in (http_response h', r)
payload_data now (ws_response w) = (ws_response w, record { bytes = w.message_bytes; err = none })
payload_data now (http_response_error d) =
    (http_response_error d, record { bytes = []; err = none })

unfoldable pub payload_reader : TaskResponse → TaskResponse × ReaderResult
payload_reader (http_response h) = let (h', r) = http_reader h in (http_response h', r)
payload_reader (ws_response w) =
    (ws_response w, record { reader = some (in_memory w.message_bytes); err = none })
payload_reader (http_response_error d) =
    (http_response_error d, record { reader = none; err = none })

error_metadata : Option DnsDecision → TaskResponseMetadata
unfolding dns_metadata
error_metadata none = no_metadata
error_metadata (some d) = record no_metadata { dns = some (dns_metadata d) }

unfoldable pub payload_metadata : TaskResponse → TaskResponseMetadata
unfolding error_metadata time_data_from_timestamps
payload_metadata (http_response h) = http_metadata h
payload_metadata (ws_response w) = record no_metadata {
  remote_addr = w.remote_addr;
  size = pos (length w.message_bytes);
  time_data = time_data_from_timestamps w.timestamps;
}
payload_metadata (http_response_error d) = error_metadata d

pub record WatcherResponse : Type 0 where
  pub task_id : String
  pub watcher_id : String
  pub url : String
  pub err : Option GoError
  pub payload : Option TaskResponse

unfoldable pub error_response : GoError → String → String → String → WatcherResponse
error_response e task_id watcher_id url = record {
  task_id = task_id;
  watcher_id = watcher_id;
  url = url;
  err = some e;
  payload = none;
}

refused : WatcherResponse → GoError → WatcherResponse × DataResult
refused wr e = (wr, record { bytes = []; err = some e })

data_of_payload : Time → WatcherResponse → TaskResponse → WatcherResponse × DataResult
data_of_payload now wr p = let (p', r) = payload_data now p in (record wr { payload = some p' }, r)

unfoldable pub response_data : Time → WatcherResponse → WatcherResponse × DataResult
unfolding refused data_of_payload payload_data
response_data now wr = elim wr.err [
  | some e ↦ refused wr e
  | none ↦ elim wr.payload [
    | none ↦ refused wr (message "no payload")
    | some p ↦ data_of_payload now wr p
  ]
]

unfoldable pub response_metadata : WatcherResponse → TaskResponseMetadata
unfolding payload_metadata
response_metadata wr = elim wr.payload [ none ↦ no_metadata | some p ↦ payload_metadata p ]

no_reader : WatcherResponse → GoError → WatcherResponse × ReaderResult
no_reader wr e = (wr, record { reader = none; err = some e })

reader_of_payload : WatcherResponse → TaskResponse → WatcherResponse × ReaderResult
unfolding payload_reader
reader_of_payload wr p = let (p', r) = payload_reader p in (record wr { payload = some p' }, r)

unfoldable pub response_reader : WatcherResponse → WatcherResponse × ReaderResult
unfolding no_reader reader_of_payload
response_reader wr = elim wr.err [
  | some e ↦ no_reader wr e
  | none ↦ elim wr.payload [
    | none ↦ no_reader wr (message "no payload")
    | some p ↦ reader_of_payload wr p
  ]
]

-- `Close` of a payload does nothing but for an HTTP response.
unfoldable pub payload_close : TaskResponse → TaskResponse
unfolding close_response
payload_close (http_response h) = http_response (close_response h)
payload_close (ws_response w) = ws_response w
payload_close (http_response_error d) = http_response_error d

-- The response that `Execute` sends for a failed request of which the manager keeps a decision.
abbrev pub failed_response : GoError → String → String → String → DnsDecision → WatcherResponse
failed_response e task_id watcher_id url d = record (error_response e task_id watcher_id url) {
  payload = some (http_response_error (some d));
}

-- `Data` of a watcher's response, called again, has the same result and changes nothing, whether the
-- response is an error, has no payload, or has one of any kind.
pub response_data-response_data :
    (t u : Time) (wr : WatcherResponse)
    → response_data u (response_data t wr).0 ≡ ((response_data t wr).0, (response_data t wr).1)
unfolding response_data http_data
response_data-response_data t u wr = ground arith

-- The response to a request that failed in the DNS lookup reports the request's error by `Data`, and
-- the decision's fallback and error by `Metadata`.
pub failed_response_lem :
    (t : Time) (e : GoError) (task_id watcher_id url : String) (d : DnsDecision)
    → ((response_data t (failed_response e task_id watcher_id url d)).1
        ≡ record { bytes = []; err = some e })
      × ((response_metadata (failed_response e task_id watcher_id url d)).dns
          ≡ some (dns_metadata d))
unfolding response_data response_metadata error_response
failed_response_lem t e task_id watcher_id url d = (refl, refl)
