-- ===== src/Response/Reading.antt =====
-- `Data` and `Reader` of an HTTP response, called in any order.
use wadjit.Prelude.{
  ℕ, ◌+◌, ◌≤◌, ◌≡◌, refl, ◌⊎◌, inl, inr, true, false, Option, none, some, List, [], ◌∷◌, arith,
  is_some,
}
use wadjit.Clock.{Time}
use wadjit.Response.{
  HttpTaskResponse, ResponseReader, in_memory, streaming, http_data, http_reader, take_body,
  close_response,
}

-- A call of `Data` after another has the same result, whatever that is, and changes nothing.
pub http_data-http_data :
    (t u : Time) (h : HttpTaskResponse)
    → http_data u (http_data t h).0 ≡ ((http_data t h).0, (http_data t h).1)
unfolding http_data
http_data-http_data t u h = ground arith

pub data Call : Type 0 where
  calls_data : Time → Call
  calls_reader : Call
  calls_close : Call

pub after_call : Call → HttpTaskResponse → HttpTaskResponse
after_call (calls_data now) h = (http_data now h).0
after_call calls_reader h = (http_reader h).0
after_call calls_close h = close_response h

abbrev hands_out : Option ResponseReader → ℕ
hands_out none = 0
hands_out (some (in_memory bytes)) = 0
hands_out (some streaming) = 1

-- Whether a call hands the raw body out.
abbrev pub streams : Call → HttpTaskResponse → ℕ
streams (calls_data now) h = 0
streams calls_reader h = hands_out (http_reader h).1.reader
streams calls_close h = 0

-- How often the calls hand the raw body out.
unfoldable pub total_streams : List Call → HttpTaskResponse → ℕ
unfolding after_call
total_streams [] h = 0
total_streams (c ∷ cs) h = streams c h + total_streams cs (after_call c h)

used_stays :
    (c : Call) (h : HttpTaskResponse)
    → h.used_reader ≡ true
    → ((after_call c h).used_reader ≡ true) × (streams c h ≡ 0)
unfolding after_call http_data http_reader close_response
used_stays (calls_data now) h u = ground arith
used_stays calls_reader h u = ground arith
used_stays calls_close h u = ground arith

used_streams_no_more :
    (cs : List Call) (h : HttpTaskResponse) → h.used_reader ≡ true → total_streams cs h ≡ 0
unfolding total_streams
used_streams_no_more [] h u = refl
used_streams_no_more (c ∷ cs) h u =
    let s = used_stays c h u in omega (arith, s.1, used_streams_no_more cs (after_call c h) s.0)

streams_marks :
    (c : Call) (h : HttpTaskResponse)
    → (streams c h ≡ 0) ⊎ ((streams c h ≡ 1) × ((after_call c h).used_reader ≡ true))
unfolding after_call http_reader
streams_marks (calls_data now) h = inl refl
streams_marks calls_reader h = ground arith
streams_marks calls_close h = inl refl

-- However `Data`, `Reader` and `Close` are called one after the other, so that no two calls overlap, the
-- raw body is handed out once at most.
pub total_streams-le-one : (cs : List Call) (h : HttpTaskResponse) → total_streams cs h ≤ 1
unfolding total_streams
total_streams-le-one [] h = omega arith
total_streams-le-one (c ∷ cs) h = elim (streams_marks c h) [
  | inl z ↦ omega (arith, z, total_streams-le-one cs (after_call c h))
  | inr (e, u) ↦ omega (arith, e, used_streams_no_more cs (after_call c h) u)
]

-- Two calls of `Reader` that overlap, so that both make their tests before either marks the reader as used,
-- both get the raw body, if there is one.
take_body-take_body :
    (h : HttpTaskResponse)
    → h.data_once ≡ false
    → h.used_reader ≡ false
    → is_some h.body ≡ true
    → (http_reader h ≡ take_body h)
      × (hands_out (take_body h).1.reader ≡ 1)
      × (hands_out (take_body (take_body h).0).1.reader ≡ 1)
unfolding http_reader take_body
take_body-take_body h unread unused has_body = ground arith

-- Once `Data` has read the body without an error, `Reader` gives its bytes from memory, as often as it
-- is called, and changes nothing.
pub http_reader-http_data :
    (t : Time) (h : HttpTaskResponse)
    → h.once_done ≡ false
    → h.data_err ≡ none
    → (http_data t h).1.err ≡ none
    → http_reader (http_data t h).0 ≡ (
      (http_data t h).0,
      record { reader = some (in_memory (http_data t h).1.bytes); err = none },
    )
unfolding http_data http_reader
http_reader-http_data t h o d e = ground arith
