-- ===== src/Dns/Resolve/Modes.antt =====
-- `resolve`: the mode of the policy chooses the strategy.
use wadjit.Prelude.{String, none, some, [], ◌∷◌, if◌then◌else◌}
use wadjit.GoError.{message, invalid_dns_policy, join}
use wadjit.Run.{Run, returns}
use wadjit.Dns.Address.{addr_port, is_empty}
use wadjit.Dns.Policy.{
  DnsRefreshMode, default_mode, static_mode, single_lookup, ttl_mode, cadence_mode, other,
}
use wadjit.Dns.Manager.{DnsPolicyManager, empty_outcome, blank_decision}
use wadjit.Dns.Resolve.{Moments, Resolved}
use wadjit.Dns.Resolve.Single.{resolve_single}
use wadjit.Dns.Resolve.Ttl.{resolve_ttl}
use wadjit.Dns.Resolve.Cadence.{resolve_cadence}

resolve_static : String → DnsPolicyManager → Resolved
unfolding is_empty join
resolve_static host m =
    if is_empty m.policy.static_addr
    then record {
      manager = m;
      outcome = empty_outcome;
      err = join (some invalid_dns_policy) (some (message "static address missing"));
      effects = [];
    }
    else record {
      manager = m;
      outcome = record empty_outcome {
        address = addr_port m.policy.static_addr;
        decision = some (record (blank_decision host m.policy.mode) {
          resolved_addrs = m.policy.static_addr.addr ∷ [];
        });
      };
      err = none;
      effects = [];
    }

unfoldable pub resolve_mode :
    DnsRefreshMode → Moments → String → String → DnsPolicyManager → Run Resolved
unfolding resolve_static
resolve_mode default_mode t host port m =
    returns (record { manager = m; outcome = empty_outcome; err = none; effects = [] })
resolve_mode static_mode t host port m = returns (resolve_static host m)
resolve_mode single_lookup t host port m = resolve_single t host port m
resolve_mode ttl_mode t host port m = resolve_ttl t host port m
resolve_mode cadence_mode t host port m = resolve_cadence t host port m
resolve_mode (other n) t host port m = returns (record {
  manager = m;
  outcome = empty_outcome;
  err = join (some invalid_dns_policy) (some (message "unsupported DNS mode"));
  effects = [];
})

unfoldable pub resolve : Moments → String → String → DnsPolicyManager → Run Resolved
unfolding resolve_mode
resolve t host port m = resolve_mode m.policy.mode t host port m
