-- ===== src/Examples/Responses.antt =====
-- The theorems on responses at a body of three bytes.
use wadjit.Prelude.{◌≤◌, ◌≡◌, refl, false, none, some, List, [], ◌∷◌, pos}
use wadjit.GoError.{external}
use wadjit.Response.{
  Body, HttpTaskResponse, new_http_task_response, http_data, http_reader, read_body, http_metadata,
}
use wadjit.Response.Text.{Formats, metadata_text}
use wadjit.Response.Reading.{
  Call, calls_data, calls_reader, calls_close, total_streams, total_streams-le-one,
}
use wadjit.Response.Fast.{read_body-http_data}
use wadjit.Response.Watcher.{WatcherResponse, http_response}

abbrev body : Body
body = record {
  unread = 104 ∷ 105 ∷ 10 ∷ [];
  read_err = none;
  closed = false;
  closed_err = some (external 9);
}

abbrev response : HttpTaskResponse
response = new_http_task_response (some "192.0.2.1:80") (pos 200) [] (pos 3) (some body) none

abbrev watched : WatcherResponse
watched = record {
  task_id = "t";
  watcher_id = "w";
  url = "http://a.example/";
  err = none;
  payload = some (http_response response);
}

abbrev calls : List Call
calls = calls_reader ∷ calls_data (pos 8) ∷ calls_reader ∷ calls_close ∷ []

total_streams-le-one_example : total_streams calls response ≤ 1
total_streams-le-one_example = total_streams-le-one calls response

streamed_once : total_streams calls response ≡ 1
unfolding total_streams http_reader http_data
streamed_once = refl

read_body-http_data_example :
    (http_data (pos 9) (read_body (pos 8) response)).1
    ≡ record { bytes = 104 ∷ 105 ∷ 10 ∷ []; err = some (external 9) }
read_body-http_data_example =
    read_body-http_data (pos 8) (pos 9) response body (external 9) refl refl refl refl refl refl

-- Every number, duration, time and address is written as a sign.
abbrev signs : Formats
signs = record { decimal = λ n. "n"; duration = λ d. "d"; time = λ t. "t"; addr = λ a. "a" }

with_headers :
    metadata_text signs (
      http_metadata (record response { header = ("Via", "x" ∷ "y" ∷ []) ∷ ("Age", "1" ∷ []) ∷ [] }))
    ≡ "TaskResponseMetadata{StatusCode: n, Headers: {Via: x, Via: y, Age: 1}, Size: n, Latency: d, TimeSent: t, TimeReceived: t, DNS: <nil>}"
unfolding metadata_text http_metadata
with_headers = refl
