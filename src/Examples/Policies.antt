-- ===== src/Examples/Policies.antt =====
-- The clock and the timing of a response at concrete values.
use wadjit.Prelude.{◌≡◌, refl, false, none, pos, some, List, [], ◌∷◌, ◌-ℤ◌}
use wadjit.GoError.{eof, is?}
use wadjit.Clock.{sub}
use wadjit.Dns.Policy.{ttl_mode, normalize_ttl}
use wadjit.Timing.{
  RequestTimestamps, TimedReadCloser, no_timestamps, time_data_from_timestamps, read, close,
}
use wadjit.Timing.Finish.{Use, reads, closes, use_all, use_reader}
use wadjit.Examples.{policy}

clamped : normalize_ttl (policy ttl_mode (pos 0)) (pos 900) ≡ pos 60
unfolding normalize_ttl
clamped = refl

abbrev stamps : RequestTimestamps
stamps = record no_timestamps { start = pos 10; first_byte = pos 25; data_done = pos 40 }

abbrev unread : TimedReadCloser
unread = record { once_done = false; timestamps = no_timestamps }

abbrev uses : List Use
uses = reads (pos 3) none ∷ reads (pos 5) (some eof) ∷ closes (pos 9) ∷ []

-- The end of the data is the first use that ends the stream.
ends_at_five : (use_all uses unread).timestamps.data_done ≡ pos 5
unfolding use_all use_reader read close is?
ends_at_five = refl

lasts_thirty : (time_data_from_timestamps stamps).request_time_total ≡ some (pos 30)
unfolding time_data_from_timestamps ◌-ℤ◌ sub
lasts_thirty = refl
