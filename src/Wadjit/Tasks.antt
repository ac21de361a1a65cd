-- ===== src/Wadjit/Tasks.antt =====
-- The tasks of a watcher as wadjit.go sees them: HTTP endpoints, which can take a default DNS policy,
-- and tasks of other types.
use wadjit.Prelude.{Bool, true, map, if◌then◌else◌}
use wadjit.Dns.Policy.{DnsPolicy}
use wadjit.Http.Endpoint.{HttpEndpoint}
use wadjit.Watcher.{Watcher}

-- A nil task and a nil `*HTTPEndpoint` are among the other tasks; what their methods do is said in `Nil`.
pub data AnyTask (U : Type 0) : Type 0 where
  http_task : HttpEndpoint → AnyTask U
  other_task : U → AnyTask U

unfoldable pub with_default : {U : Type 0} → DnsPolicy → AnyTask U → AnyTask U
with_default policy (http_task e) =
    if e.dns_policy_set
    then http_task e
    else http_task (record e { dns_policy = policy; dns_policy_set = true })
with_default policy (other_task u) = other_task u

unfoldable pub apply_default_dns_policy :
    {U : Type 0} → Bool → DnsPolicy → Watcher (AnyTask U) → Watcher (AnyTask U)
unfolding with_default
apply_default_dns_policy has policy w =
    if has then record w { tasks = map (with_default policy) w.tasks } else w
