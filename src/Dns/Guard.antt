-- ===== src/Dns/Guard.antt =====
-- The guard rail of `dnsPolicyManager` (dns_policy_manager.go): failures are counted, a count at the
-- threshold raises the trigger, and the next request consumes it.
pub mod Threshold
pub mod Failures
pub mod Window
pub mod Burst
pub mod Demand
use wadjit.Prelude.{
  ℕ, ◌+◌, Bool, true, false, ◌||◌, Option, List, [], ◌∷◌, leb, if◌then◌else◌, is_some, ℤ, pos,
  ltb_ℤ, leb_ℤ,
}
use wadjit.Clock.{Time, zero_time, is_zero, sub}
use wadjit.GoError.{GoError}
use wadjit.Dns.Policy.{
  DnsGuardRailAction, no_action, flush, force_lookup, other_action, acts, enabled,
}
use wadjit.Dns.Manager.{GuardRailState, DnsPolicyManager}

abbrev pub server_error_threshold : ℤ
server_error_threshold = pos 500

-- The count starts anew when there is no first failure, or when it is out of the window.
open_window : Time → GuardRailState → GuardRailState
open_window now g =
    if ltb_ℤ (pos 0) g.policy.window
    then if is_zero g.first_failure || ltb_ℤ g.policy.window (sub now g.first_failure)
      then record g { count = 0; first_failure = now }
      else g
    else if is_zero g.first_failure
    then record g { first_failure = now }
    else g

count_failure : Time → GuardRailState → GuardRailState
count_failure now g = record g { count = g.count + 1; last_failure = now }

abbrev pub forces : DnsGuardRailAction → Bool
forces no_action = false
forces flush = false
forces force_lookup = true
forces (other_action n) = false

trip : DnsPolicyManager → DnsPolicyManager
trip m = record m {
  guard = record guard { triggered = true; count = 0; first_failure = zero_time };
  force_lookup = if forces m.guard.policy.action then true else m.force_lookup;
}
  where
    open m use {guard}

unfoldable pub register_guard_failure : Time → DnsPolicyManager → DnsPolicyManager
unfolding enabled open_window count_failure trip
register_guard_failure now m =
    let counted : DnsPolicyManager = record m {
      guard = count_failure now (open_window now m.guard);
    } in
    if enabled m.guard.policy
    then if leb_ℤ m.guard.policy.consecutive_error_threshold (pos counted.guard.count)
      then trip counted
      else counted
    else m

unfoldable pub reset_guard : DnsPolicyManager → DnsPolicyManager
reset_guard m = record m {
  guard = record guard { count = 0; first_failure = zero_time; last_failure = zero_time };
}
  where
    open m use {guard}

-- A response is a failure if there is none, or if its status is a server error.
abbrev pub is_failure : ℤ → Option GoError → Bool
is_failure status result_err = is_some result_err || leb_ℤ server_error_threshold status

unfoldable pub observe_result : Time → ℤ → Option GoError → DnsPolicyManager → DnsPolicyManager
unfolding register_guard_failure reset_guard
observe_result now status result_err m =
    if enabled m.guard.policy
    then if is_failure status result_err then register_guard_failure now m else reset_guard m
    else m

-- The Boolean says whether a guard action should influence the request.
unfoldable pub consume_guard_trigger : DnsPolicyManager → DnsPolicyManager × Bool
consume_guard_trigger m =
    if m.guard.triggered
    then (record m { guard = record guard { triggered = false } }, acts m.guard.policy.action)
    else (m, false)
  where
    open m use {guard}

-- A request's result, and when it was observed.
pub record Observation : Type 0 where
  pub at : Time
  pub status : ℤ
  pub result_err : Option GoError

unfoldable pub observe_all : List Observation → DnsPolicyManager → DnsPolicyManager
unfolding observe_result
observe_all [] m = m
observe_all (o ∷ os) m = observe_all os (observe_result o.at o.status o.result_err m)
