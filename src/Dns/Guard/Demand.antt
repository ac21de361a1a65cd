-- ===== src/Dns/Guard/Demand.antt =====
-- A guard rail whose action is to force a lookup demands it when it acts.
use wadjit.Prelude.{◌≡◌, ◌||◌, not, true, false, List, [], ◌∷◌, arith}
use wadjit.Dns.Policy.{force_lookup}
use wadjit.Dns.Manager.{DnsPolicyManager}
use wadjit.Dns.Guard.{Observation, observe_result, observe_all}

-- A raised trigger comes with a demand.
abbrev pub Demands : DnsPolicyManager → Type 0
Demands m = (not m.guard.triggered || m.force_lookup) ≡ true

observe-action :
    (o : Observation) (m : DnsPolicyManager)
    → (observe_result o.at o.status o.result_err m).guard.policy ≡ m.guard.policy
unfolding observe_result
observe-action o m = ground arith

observe-Demands :
    (o : Observation) (m : DnsPolicyManager)
    → m.guard.policy.action ≡ force_lookup
    → Demands m
    → Demands (observe_result o.at o.status o.result_err m)
unfolding observe_result
observe-Demands o m a d = ground arith

observe_all-Demands :
    (os : List Observation) (m : DnsPolicyManager)
    → m.guard.policy.action ≡ force_lookup
    → Demands m
    → Demands (observe_all os m)
unfolding observe_all
observe_all-Demands [] m a d = d
observe_all-Demands (o ∷ os) m a d =
    let next = observe_result o.at o.status o.result_err m in
    observe_all-Demands os next (ground (arith, observe-action o m)) (observe-Demands o m a d)

-- Let the action be to force a lookup, and the trigger be down. If the results `os` raise the trigger,
-- then a lookup is demanded after them.
pub triggered-force_lookup :
    (os : List Observation) (m : DnsPolicyManager)
    → m.guard.policy.action ≡ force_lookup
    → m.guard.triggered ≡ false
    → (observe_all os m).guard.triggered ≡ true
    → (observe_all os m).force_lookup ≡ true
triggered-force_lookup os m a u t =
    ground (arith, observe_all-Demands os m a (ground (arith, u)), t)
