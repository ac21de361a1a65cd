-- ===== src/Dns/Guard/Threshold.antt =====
-- Without a window, the guard rail counts the failures since the last success: the trigger is up
-- exactly when some run of consecutive failures has reached the threshold.
use Prim.Native.Nat.{max}
use native.Mathlib.Nat.{mod-lt, mod-eq_of_lt, mod-add-mod, mod-le, mod_self}
use wadjit.Prelude.{
  ℕ, ◌+◌, ◌%◌, ◌≤◌, ◌<◌, ◌≡◌, Bool, true, ◌||◌, List, [], ◌∷◌, arith, leb, if◌then◌else◌, pos, ◌≤ℤ◌,
}
use wadjit.Dns.Policy.{acts}
use wadjit.Dns.Manager.{DnsPolicyManager}
use wadjit.Dns.Guard.{Observation, is_failure, observe_result, observe_all}

abbrev pub failed : Observation → Bool
failed o = is_failure o.status o.result_err

-- The failures since the last success, `r` of them before the list.
abbrev pub run_length : ℕ → List Observation → ℕ
run_length r [] = r
run_length r (o ∷ os) = run_length (if failed o then r + 1 else 0) os

-- The longest run of consecutive failures: `best` so far, and `r` failures just before the list.
abbrev pub longest_run : ℕ → ℕ → List Observation → ℕ
longest_run best r [] = best
longest_run best r (o ∷ os) =
    let r' : ℕ = if failed o then r + 1 else 0 in longest_run (max best r') r' os

-- The guard rail is on, counts without a window, and acts at `n` failures.
pub record Counts (n : ℕ) (m : DnsPolicyManager) : Type 0 where
  pub no_window : m.guard.policy.window ≤ℤ pos 0
  pub threshold : m.guard.policy.consecutive_error_threshold ≡ pos n
  pub positive : 0 < n
  pub acting : acts m.guard.policy.action ≡ true

mod_step : (n r : ℕ) → 0 < n → (r + 1) % n ≡ (if leb n (r % n + 1) then 0 else r % n + 1)
mod_step n r h =
    rw (← mod-add-mod r n 1)
      (ground (arith, mod-lt r {m = n} h, mod-eq_of_lt {n = r % n + 1} {m = n}, mod_self n))

-- A run reaches the threshold by this failure, or did so before.
reaches :
    (n r best : ℕ) → 0 < n → r ≤ best → (leb n best || leb n (r % n + 1)) ≡ leb n (max best (r + 1))
reaches n r best h k = ground (arith, mod-le r n, mod-eq_of_lt {n = r} {m = n})

observe-Counts :
    (n : ℕ) (m : DnsPolicyManager) (o : Observation)
    → Counts n m
    → Counts n (observe_result o.at o.status o.result_err m)
unfolding observe_result
observe-Counts n m o c = ground arith

observe-count :
    (n r : ℕ) (m : DnsPolicyManager) (o : Observation)
    → Counts n m
    → m.guard.count ≡ r % n
    → (observe_result o.at o.status o.result_err m).guard.count
      ≡ (if failed o then r + 1 else 0) % n
unfolding observe_result
observe-count n r m o c e = ground (arith, mod_step n r c.positive)

observe-triggered :
    (n r best : ℕ) (t : Bool) (m : DnsPolicyManager) (o : Observation)
    → Counts n m
    → m.guard.count ≡ r % n
    → r ≤ best
    → m.guard.triggered ≡ (t || leb n best)
    → (observe_result o.at o.status o.result_err m).guard.triggered
      ≡ (t || leb n (max best (if failed o then r + 1 else 0)))
unfolding observe_result
observe-triggered n r best t m o c e h g = ground (arith, reaches n r best c.positive h)

-- What the guard rail holds after a run of `r` failures, `best` being the longest so far.
record Tallies (n r best : ℕ) (t : Bool) (m : DnsPolicyManager) : Type 0 where
  counts : Counts n m
  count : m.guard.count ≡ r % n
  within : r ≤ best
  triggered : m.guard.triggered ≡ (t || leb n best)

observe-Tallies :
    (n r best : ℕ) (t : Bool) (m : DnsPolicyManager) (o : Observation)
    → Tallies n r best t m
    → Tallies n
        (if failed o then r + 1 else 0)
        (max best (if failed o then r + 1 else 0))
        t
        (observe_result o.at o.status o.result_err m)
observe-Tallies n r best t m o h = record {
  counts = observe-Counts n m o h.counts;
  count = observe-count n r m o h.counts h.count;
  within = omega arith;
  triggered = observe-triggered n r best t m o h.counts h.count h.within h.triggered;
}

start :
    (n : ℕ) (m : DnsPolicyManager)
    → Counts n m
    → m.guard.count ≡ 0
    → Tallies n 0 0 m.guard.triggered m
start n m c e = record {
  counts = c;
  count = ground (arith, mod-eq_of_lt {n = 0} {m = n} c.positive);
  within = omega arith;
  triggered = ground (arith, c.positive);
}

observe_all-Tallies :
    (n r best : ℕ) (t : Bool) (os : List Observation) (m : DnsPolicyManager)
    → Tallies n r best t m
    → Tallies n (run_length r os) (longest_run best r os) t (observe_all os m)
unfolding observe_all
observe_all-Tallies n r best t [] m h = h
observe_all-Tallies n r best t (o ∷ os) m h =
    let r' = if failed o then r + 1 else 0 in
    observe_all-Tallies n r' (max best r') t os (observe_result o.at o.status o.result_err m)
      (observe-Tallies n r best t m o h)

-- Let the guard rail be enabled with threshold n and no window, and its count be 0. Whatever the
-- results that follow, its count is the failures since the last success, modulo n, and its trigger
-- is up exactly if it was, or some run of consecutive failures has had at least n members.
pub observe_all-longest_run :
    (n : ℕ) (m : DnsPolicyManager) (os : List Observation)
    → Counts n m
    → m.guard.count ≡ 0
    → ((observe_all os m).guard.count ≡ run_length 0 os % n)
      × ((observe_all os m).guard.triggered ≡ (m.guard.triggered || leb n (longest_run 0 0 os)))
observe_all-longest_run n m os c e =
    let h = observe_all-Tallies n 0 0 m.guard.triggered os m (start n m c e) in
    (h.count, h.triggered)
