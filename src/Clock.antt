-- ===== src/Clock.antt =====
-- Go's `time` package, as far as the library uses it. A `Time` is the number of nanoseconds since
-- the zero `time.Time`, a `Duration` a signed number of nanoseconds of 64 bits.
use wadjit.Prelude.{
  ◌≡◌, ◌∙◌, Bool, arith, if◌then◌else◌, ℤ, pos, negsuc, ◌+ℤ◌, ◌-ℤ◌, ◌≤ℤ◌, ltb_ℤ, eqb_ℤ, int_laws,
  -ℤ_parts,
}

abbrev pub Time : Type 0
Time = ℤ

abbrev pub Duration : Type 0
Duration = ℤ

abbrev pub zero_time : Time
zero_time = pos 0

abbrev pub max_duration : Duration
max_duration = pos 9223372036854775807

abbrev pub min_duration : Duration
min_duration = negsuc 9223372036854775807

-- `t.IsZero()`
abbrev pub is_zero : Time → Bool
is_zero t = eqb_ℤ t zero_time

-- `t.After(u)`
abbrev pub after : Time → Time → Bool
after t u = ltb_ℤ u t

-- `t.Add(d)`
abbrev pub add : Time → Duration → Time
add t d = t +ℤ d

clamp : ℤ → Duration
clamp d =
    if ltb_ℤ max_duration d then max_duration else if ltb_ℤ d min_duration then min_duration else d

-- `t.Sub(u)` stops at the least and the greatest duration.
unfoldable pub sub : Time → Time → Duration
unfolding clamp
sub t u = clamp (t -ℤ u)

abbrev pub InRange : Duration → Type 0
InRange d = (min_duration ≤ℤ d) × (d ≤ℤ max_duration)

clamp-InRange : (d : ℤ) → InRange d → clamp d ≡ d
unfolding clamp
clamp-InRange d h = ground arith

pub sub-InRange : (t u : Time) → InRange (t -ℤ u) → sub t u ≡ t -ℤ u
unfolding sub
sub-InRange t u h = clamp-InRange (t -ℤ u) h

-- What was added to a time is the difference to it.
pub sub-add : (t : Time) (d : Duration) → InRange d → sub (add t d) t ≡ d
sub-add t d h =
    let e : t +ℤ d -ℤ t ≡ d = omega int_laws in
    sub-InRange (add t d) t (omega (int_laws, h.0, h.1)) ∙ e

-- The order of two times is the sign of their difference.
pub sub_nonneg : (t u : Time) → u ≤ℤ t → pos 0 ≤ℤ sub t u
unfolding sub
sub_nonneg t u h = ground (arith, -ℤ_parts t u)
