-- ===== src/Dns/Policy/Ttl.antt =====
-- The bounds of a normalised TTL.
use wadjit.Prelude.{◌≡◌, none, arith, pos, ◌≤ℤ◌, ◌<ℤ◌}
use wadjit.GoError.{join}
use wadjit.Clock.{Duration}
use wadjit.Dns.Policy.{ttl_mode, DnsPolicy, validate, normalize_ttl}

-- Under a valid TTL policy with a positive TTLMax, a normalised TTL lies between TTLMin and TTLMax,
-- whatever the resolver reported.
pub normalize_ttl_bounds :
    (p : DnsPolicy) (d : Duration)
    → p.mode ≡ ttl_mode
    → validate p ≡ none
    → pos 0 <ℤ p.ttl_max
    → (p.ttl_min ≤ℤ normalize_ttl p d) × (normalize_ttl p d ≤ℤ p.ttl_max)
unfolding validate normalize_ttl join
normalize_ttl_bounds p d m v h = ground arith
