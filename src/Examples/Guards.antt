-- ===== src/Examples/Guards.antt =====
-- The guard rail's theorems at runs of failures.
use wadjit.Prelude.{◌%◌, ◌≡◌, refl, ◌||◌, true, false, List, [], ◌∷◌, arith, pos, leb, ◌-ℤ◌}
use wadjit.Clock.{sub}
use wadjit.Dns.Policy.{ttl_mode, enabled}
use wadjit.Dns.Manager.{DnsPolicyManager, new_dns_policy_manager}
use wadjit.Dns.Guard.{Observation, observe_all}
use wadjit.Dns.Guard.Threshold.{Counts, run_length, longest_run, observe_all-longest_run}
use wadjit.Dns.Guard.Failures.{HasBurst, ActsAt}
use wadjit.Dns.Guard.Window.{triggered-HasBurst}
use wadjit.Dns.Guard.Burst.{Burst-triggered}
use wadjit.Examples.{manager, failure, success}

abbrev history : List Observation
history = failure 10 ∷ failure 20 ∷ success 30 ∷ failure 40 ∷ []

abbrev counting : DnsPolicyManager
counting = manager ttl_mode (pos 0)

abbrev windowed : DnsPolicyManager
windowed = manager ttl_mode (pos 100)

counting-Counts : Counts 2 counting
unfolding new_dns_policy_manager
counting-Counts = record {
  no_window = omega arith;
  threshold = refl;
  positive = omega arith;
  acting = refl;
}

observe_all-longest_run_example :
    ((observe_all history counting).guard.count ≡ run_length 0 history % 2)
    × ((observe_all history counting).guard.triggered
        ≡ (counting.guard.triggered || leb 2 (longest_run 0 0 history)))
unfolding new_dns_policy_manager
observe_all-longest_run_example = observe_all-longest_run 2 counting history counting-Counts refl

windowed-ActsAt : ActsAt 2 windowed.guard
unfolding new_dns_policy_manager enabled
windowed-ActsAt = record { on = refl; threshold = refl }

triggered-HasBurst_example : HasBurst 2 windowed.guard.policy.window history
unfolding new_dns_policy_manager observe_all sub ◌-ℤ◌
triggered-HasBurst_example =
    triggered-HasBurst 2 windowed history windowed-ActsAt refl refl refl refl

Burst-triggered_example :
    (observe_all (failure 10 ∷ failure 20 ∷ []) windowed).guard.triggered ≡ true
unfolding new_dns_policy_manager sub ◌-ℤ◌
Burst-triggered_example =
    Burst-triggered 2 windowed (failure 10) (failure 20 ∷ []) windowed-ActsAt refl refl refl
      (refl, (refl, refl, tt)) (omega arith)

-- failures further apart than the window do not raise the trigger
spread : (observe_all (failure 10 ∷ failure 120 ∷ []) windowed).guard.triggered ≡ false
unfolding new_dns_policy_manager observe_all sub ◌-ℤ◌
spread = refl
