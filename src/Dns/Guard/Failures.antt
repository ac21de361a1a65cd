-- ===== src/Dns/Guard/Failures.antt =====
-- Failures that follow one another, all of them in the window of the first.
use mathlib.Core.List.{append_assoc}
use wadjit.Prelude.{
  ℕ, ◌≤◌, ◌≡◌, ap, ◌∙◌, Bool, true, ◌||◌, List, [], not, ◌∷◌, ◌++◌, arith, ltb_ℤ, leb_ℤ, pos, ◌≤ℤ◌,
  ◌<ℤ◌, length,
}
use wadjit.Clock.{Time, Duration, zero_time, sub}
use wadjit.Dns.Policy.{enabled}
use wadjit.Dns.Manager.{GuardRailState}
use wadjit.Dns.Guard.{Observation, is_failure}

-- The observation is no later after `t` than the window `w`, if there is one.
abbrev pub in_window : Duration → Time → Observation → Bool
in_window w t o = not (ltb_ℤ (pos 0) w) || leb_ℤ (sub o.at t) w

-- Every result of the list is a failure in the window that `t` opens.
abbrev pub FailsWithin : Duration → Time → List Observation → Type 0
FailsWithin w t [] = Unit {0}
FailsWithin w t (o ∷ os) =
    (is_failure o.status o.result_err ≡ true) × (in_window w t o ≡ true) × FailsWithin w t os

-- The list starts with a failure, and those after it fall into the window that it opens.
abbrev pub Burst : Duration → List Observation → Type 0
Burst w [] = Unit {0}
Burst w (o ∷ os) = (is_failure o.status o.result_err ≡ true) × FailsWithin w o.at os

-- `n` results, at least, of a list `os` that follow one another are a burst.
pub record HasBurst (n : ℕ) (w : Duration) (os : List Observation) : Type 0 where
  pub before : List Observation
  pub burst : List Observation
  pub rest : List Observation
  pub parts : os ≡ before ++ (burst ++ rest)
  pub long : n ≤ length burst
  pub is_burst : Burst w burst

-- The window was opened by the first of the list.
abbrev pub Opened : List Observation → Time → Type 0
Opened [] t = t ≡ zero_time
Opened (o ∷ os) t = o.at ≡ t

FailsWithin-snoc :
    (w : Duration) (t : Time) (b : List Observation) (o : Observation)
    → FailsWithin w t b
    → is_failure o.status o.result_err ≡ true
    → in_window w t o ≡ true
    → FailsWithin w t (b ++ o ∷ [])
FailsWithin-snoc w t [] o h f i = (f, i, tt)
FailsWithin-snoc w t (x ∷ b) o h f i = (h.0, h.1, FailsWithin-snoc w t b o h.2 f i)

-- A failure that does not open a window anew is one more of the burst.
pub Burst-snoc :
    (w : Duration) (t : Time) (b : List Observation) (o : Observation)
    → Burst w b
    → is_failure o.status o.result_err ≡ true
    → (pos 0 <ℤ w → Opened b t × (sub o.at t ≤ℤ w))
    → Burst w (b ++ o ∷ [])
Burst-snoc w t [] o h f i = (f, tt)
Burst-snoc w t (x ∷ b) o h f i = (h.0, FailsWithin-snoc w x.at b o h.1 f (ground (arith, i)))

-- The guard rail is enabled and acts at `n` failures.
pub record ActsAt (n : ℕ) (g : GuardRailState) : Type 0 where
  pub on : enabled g.policy ≡ true
  pub threshold : g.policy.consecutive_error_threshold ≡ pos n

pub HasBurst-extend :
    (n : ℕ) (w : Duration) (os rest : List Observation)
    → HasBurst n w os
    → HasBurst n w (os ++ rest)
HasBurst-extend n w os rest h = record {
  before = h.before;
  burst = h.burst;
  rest = h.rest ++ rest;
  parts = ap (λ l. l ++ rest) h.parts ∙ simp append_assoc;
  long = h.long;
  is_burst = h.is_burst;
}
