-- ===== src/Dns/Guard/Burst.antt =====
-- A burst of failures that is as long as the threshold raises the trigger.
use wadjit.Prelude.{
  ℕ, ◌+◌, ◌≤◌, ◌<◌, ◌≡◌, true, false, List, [], ◌∷◌, arith, length, ltb, inl, inr, Bool-cases,
}
use wadjit.Clock.{Time, Duration, zero_time, is_zero}
use wadjit.Dns.Manager.{DnsPolicyManager}
use wadjit.Dns.Guard.{Observation, is_failure, observe_result, observe_all}
use wadjit.Dns.Guard.Failures.{in_window, FailsWithin, Burst, ActsAt}

observe-triggered_stays :
    (o : Observation) (m : DnsPolicyManager)
    → m.guard.triggered ≡ true
    → (observe_result o.at o.status o.result_err m).guard.triggered ≡ true
unfolding observe_result
observe-triggered_stays o m t = ground arith

observe_all-triggered_stays :
    (os : List Observation) (m : DnsPolicyManager)
    → m.guard.triggered ≡ true
    → (observe_all os m).guard.triggered ≡ true
unfolding observe_all
observe_all-triggered_stays [] m t = t
observe_all-triggered_stays (o ∷ os) m t =
    observe_all-triggered_stays os (observe_result o.at o.status o.result_err m)
      (observe-triggered_stays o m t)

-- `k` failures of a window that `t` opened are counted, and the threshold `n` is not reached.
record Counting (n k : ℕ) (w : Duration) (t : Time) (m : DnsPolicyManager) : Type 0 where
  acts_at : ActsAt n m.guard
  windowed : m.guard.policy.window ≡ w
  count : m.guard.count ≡ k
  opened : m.guard.first_failure ≡ t

Counting-next :
    (n k : ℕ) (w : Duration) (t : Time) (o : Observation) (m : DnsPolicyManager)
    → Counting n k w t m
    → is_zero t ≡ false
    → is_failure o.status o.result_err ≡ true
    → in_window w t o ≡ true
    → k + 1 < n
    → Counting n (k + 1) w t (observe_result o.at o.status o.result_err m)
unfolding observe_result
Counting-next n k w t o m c z f i l = ground arith

Counting-full :
    (n k : ℕ) (w : Duration) (t : Time) (o : Observation) (m : DnsPolicyManager)
    → Counting n k w t m
    → is_zero t ≡ false
    → is_failure o.status o.result_err ≡ true
    → in_window w t o ≡ true
    → n ≤ k + 1
    → (observe_result o.at o.status o.result_err m).guard.triggered ≡ true
unfolding observe_result
Counting-full n k w t o m c z f i l = ground arith

FailsWithin-triggered :
    (n k : ℕ) (w : Duration) (t : Time) (os : List Observation) (m : DnsPolicyManager)
    → Counting n k w t m
    → is_zero t ≡ false
    → FailsWithin w t os
    → k < n
    → n ≤ k + length os
    → (observe_all os m).guard.triggered ≡ true
unfolding observe_all
FailsWithin-triggered n k w t [] m c z f l h = absurd (omega arith)
FailsWithin-triggered n k w t (o ∷ os) m c z f l h = elim (Bool-cases (ltb (k + 1) n)) [
  | inl more ↦
      let room : k + 1 < n = ground arith in
      FailsWithin-triggered n (k + 1) w t os (observe_result o.at o.status o.result_err m)
        (Counting-next n k w t o m c z f.0 f.1 room) z f.2 room (omega arith)
  | inr full ↦
      observe_all-triggered_stays os (observe_result o.at o.status o.result_err m)
        (Counting-full n k w t o m c z f.0 f.1 (ground arith))
]

-- the first failure of all opens the window
first-Counting :
    (n : ℕ) (o : Observation) (m : DnsPolicyManager)
    → ActsAt n m.guard
    → m.guard.count ≡ 0
    → m.guard.first_failure ≡ zero_time
    → is_failure o.status o.result_err ≡ true
    → 1 < n
    → Counting n 1 m.guard.policy.window o.at (observe_result o.at o.status o.result_err m)
unfolding observe_result
first-Counting n o m a c f e l = ground arith

first-full :
    (n : ℕ) (o : Observation) (m : DnsPolicyManager)
    → ActsAt n m.guard
    → m.guard.count ≡ 0
    → is_failure o.status o.result_err ≡ true
    → n ≤ 1
    → (observe_result o.at o.status o.result_err m).guard.triggered ≡ true
unfolding observe_result
first-full n o m a c e l = ground arith

-- Let the guard rail be enabled with threshold n and its counters reset. If the next results are a
-- burst of at least n failures, with a window all within the window of the first, whose time is not
-- the zero time, then its trigger is up after them.
pub Burst-triggered :
    (n : ℕ) (m : DnsPolicyManager) (o : Observation) (os : List Observation)
    → ActsAt n m.guard
    → m.guard.count ≡ 0
    → m.guard.first_failure ≡ zero_time
    → is_zero o.at ≡ false
    → Burst m.guard.policy.window (o ∷ os)
    → n ≤ length (o ∷ os)
    → (observe_all (o ∷ os) m).guard.triggered ≡ true
unfolding observe_all
Burst-triggered n m o os a c f z b h = elim (Bool-cases (ltb 1 n)) [
  | inl more ↦
      let room : 1 < n = ground arith in
      FailsWithin-triggered n 1 m.guard.policy.window o.at os
        (observe_result o.at o.status o.result_err m) (first-Counting n o m a c f b.0 room) z b.1
        room (omega arith)
  | inr one ↦
      observe_all-triggered_stays os (observe_result o.at o.status o.result_err m)
        (first-full n o m a c b.0 (ground arith))
]
