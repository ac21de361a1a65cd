-- ===== src/Response/Fast.antt =====
-- A response whose body was read by the endpoint itself (`OptReadFast`), before `Data` is called.
use wadjit.Prelude.{◌≡◌, false, none, some, arith}
use wadjit.Clock.{Time}
use wadjit.GoError.{GoError}
use wadjit.Response.{Body, HttpTaskResponse, read_body, http_data}

-- Let a fresh response have an open body that reads without an error, and let reads of it fail with
-- `e` once it is closed. After the endpoint has read it, `Data` returns all its bytes, and with them
-- the error `e`.
pub read_body-http_data :
    (t u : Time) (h : HttpTaskResponse) (b : Body) (e : GoError)
    → h.body ≡ some b
    → b.closed ≡ false
    → b.read_err ≡ none
    → b.closed_err ≡ some e
    → h.once_done ≡ false
    → h.used_reader ≡ false
    → (http_data u (read_body t h)).1 ≡ record { bytes = b.unread; err = some e }
unfolding http_data read_body
read_body-http_data t u h b e has open_body fine after once unused = ground arith
