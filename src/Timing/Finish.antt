-- ===== src/Timing/Finish.antt =====
-- The end of the data is recorded once.
use wadjit.Prelude.{
  Bool, ◌≡◌, refl, ap, ◌∙◌, true, false, Option, List, [], ◌∷◌, arith, if◌then◌else◌, Bool-cases,
  inl, inr,
}
use wadjit.Clock.{Time, zero_time, is_zero}
use wadjit.GoError.{GoError, is?, eof_sentinel}
use wadjit.Timing.{TimedReadCloser, read, close}

-- What a caller does with the reader, and when: it reads, with the error of the body, or it closes.
pub data Use : Type 0 where
  reads : Time → Option GoError → Use
  closes : Time → Use

unfoldable pub use_reader : Use → TimedReadCloser → TimedReadCloser
use_reader (reads now e) r = read now e r
use_reader (closes now) r = close now r

unfoldable pub use_all : List Use → TimedReadCloser → TimedReadCloser
use_all [] r = r
use_all (u ∷ us) r = use_all us (use_reader u r)

-- A use that ends the stream, and its time.
abbrev pub ends : Use → Bool
ends (reads now e) = is? e eof_sentinel
ends (closes now) = true

abbrev pub time_of : Use → Time
time_of (reads now e) = now
time_of (closes now) = now

-- The time of the first use that ends the stream; the zero time if there is none.
abbrev pub first_end : List Use → Time
first_end [] = zero_time
first_end (u ∷ us) = let rest = first_end us in if ends u then time_of u else rest

use_reader-done : (u : Use) (r : TimedReadCloser) → r.once_done ≡ true → use_reader u r ≡ r
unfolding use_reader read close
use_reader-done (reads now e) r d = ground arith
use_reader-done (closes now) r d = ground arith

use_all-done : (us : List Use) (r : TimedReadCloser) → r.once_done ≡ true → use_all us r ≡ r
unfolding use_all
use_all-done [] r d = refl
use_all-done (u ∷ us) r d = rw (use_reader-done u r d) (use_all-done us r d)

use_reader-ends :
    (u : Use) (r : TimedReadCloser)
    → r.once_done ≡ false
    → is_zero r.timestamps.data_done ≡ true
    → ends u ≡ true
    → ((use_reader u r).once_done ≡ true) × ((use_reader u r).timestamps.data_done ≡ time_of u)
unfolding use_reader read close
use_reader-ends (reads now e) r d z h = ground arith
use_reader-ends (closes now) r d z h = ground arith

use_reader-goes_on : (u : Use) (r : TimedReadCloser) → ends u ≡ false → use_reader u r ≡ r
unfolding use_reader read
use_reader-goes_on (reads now e) r h = ground arith
use_reader-goes_on (closes now) r h = cc

-- Let no end of the data be recorded yet. After any reads and closes of the reader, the recorded end
-- is the time of the first that met the end of the body or closed it, and unset if none did.
pub use_all-first_end :
    (us : List Use) (r : TimedReadCloser)
    → r.once_done ≡ false
    → r.timestamps.data_done ≡ zero_time
    → (use_all us r).timestamps.data_done ≡ first_end us
unfolding use_all
use_all-first_end [] r d z = z
use_all-first_end (u ∷ us) r d z = elim (Bool-cases (ends u)) [
  | inl h ↦
      let e = use_reader-ends u r d (ground (arith, z)) h in
      rw (use_all-done us (use_reader u r) e.0, h) e.1
  | inr h ↦
      ap (λ q. (use_all us q).timestamps.data_done) (use_reader-goes_on u r h)
      ∙ rw h (use_all-first_end us r d z)
]
