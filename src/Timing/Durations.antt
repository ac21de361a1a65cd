-- ===== src/Timing/Durations.antt =====
-- How the reported durations of a request hang together.
use wadjit.Prelude.{◌≡◌, false, some, arith, pos, ◌+ℤ◌, ◌-ℤ◌, ◌≤ℤ◌, int_laws}
use wadjit.Clock.{InRange, is_zero, sub, sub-InRange, sub_nonneg}
use wadjit.Timing.{RequestTimestamps, time_data_from_timestamps}

module _ (t : RequestTimestamps) (started : is_zero t.start ≡ false)
    (answered : is_zero t.first_byte ≡ false) (read : is_zero t.data_done ≡ false)
    (first : t.start ≤ℤ t.first_byte) (last : t.first_byte ≤ℤ t.data_done)
    (short : InRange (t.data_done -ℤ t.start)) where
  latency-InRange : InRange (t.first_byte -ℤ t.start)
  latency-InRange = omega (int_laws, short.0, short.1)

  transfer-InRange : InRange (t.data_done -ℤ t.first_byte)
  transfer-InRange = omega (int_laws, short.0, short.1)

  parts_sum : sub t.data_done t.start ≡ sub t.first_byte t.start +ℤ sub t.data_done t.first_byte
  parts_sum = rw (sub-InRange t.data_done t.start short) (
      rw (sub-InRange t.first_byte t.start latency-InRange)
        (rw (sub-InRange t.data_done t.first_byte transfer-InRange) (omega int_laws)))

  -- Let the start, the first byte and the end of the data be set, in this order, and the whole fit
  -- into a duration. Then the total time and the transfer are reported, the total is the sum of the
  -- latency and the transfer, and neither of these is negative.
  pub request_time_total-sum :
      ((time_data_from_timestamps t).request_time_total
        ≡ some ((time_data_from_timestamps t).latency +ℤ sub t.data_done t.first_byte))
      × ((time_data_from_timestamps t).data_transfer ≡ some (sub t.data_done t.first_byte))
      × (pos 0 ≤ℤ (time_data_from_timestamps t).latency)
      × (pos 0 ≤ℤ sub t.data_done t.first_byte)
  unfolding time_data_from_timestamps
  request_time_total-sum = ground (
    arith,
    parts_sum,
    sub_nonneg t.first_byte t.start first,
    sub_nonneg t.data_done t.first_byte last,
  )
