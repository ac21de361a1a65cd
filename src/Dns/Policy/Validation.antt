-- ===== src/Dns/Policy/Validation.antt =====
-- Which policies `Validate` accepts, and the error of the others.
use wadjit.Prelude.{is_some, refl, ◌≡◌, ◌↔◌, ◌⊎◌, false, none, arith, pos, ◌≤ℤ◌, ◌<ℤ◌}
use wadjit.GoError.{join, is?, invalid_dns_policy_sentinel}
use wadjit.Dns.Address.{is_empty}
use wadjit.Dns.Policy.{
  DnsRefreshMode, default_mode, static_mode, single_lookup, ttl_mode, cadence_mode, other,
  DnsPolicy, validate,
}

-- What a coherent policy is, mode by mode.
abbrev pub Coherent : DnsRefreshMode → DnsPolicy → Type 0
Coherent default_mode p = Unit {0}
Coherent single_lookup p = Unit {0}
Coherent static_mode p = is_empty p.static_addr ≡ false
Coherent ttl_mode p = (p.ttl_max ≤ℤ pos 0) ⊎ (p.ttl_min ≤ℤ p.ttl_max)
Coherent cadence_mode p = pos 0 <ℤ p.cadence
Coherent (other n) p = ⊥

validate_sound :
    (m : DnsRefreshMode) (p : DnsPolicy) → p.mode ≡ m → validate p ≡ none → Coherent m p
unfolding validate join
validate_sound default_mode p e h = tt
validate_sound single_lookup p e h = tt
validate_sound static_mode p e h = ground arith
validate_sound ttl_mode p e h = ground arith
validate_sound cadence_mode p e h = ground arith
validate_sound (other n) p e h = ground arith

validate_complete :
    (m : DnsRefreshMode) (p : DnsPolicy) → p.mode ≡ m → Coherent m p → validate p ≡ none
unfolding validate join
validate_complete default_mode p e h = ground arith
validate_complete single_lookup p e h = ground arith
validate_complete static_mode p e h = ground arith
validate_complete ttl_mode p e h = ground arith
validate_complete cadence_mode p e h = ground arith
validate_complete (other n) p e h = elim h [ ]

-- `Validate` accepts a policy exactly if the fields that its mode uses are coherent: a static address
-- that is set, TTL bounds that are in order if the greater is positive, a positive cadence; a mode
-- with no name is refused.
pub validate-Coherent : (p : DnsPolicy) → (validate p ≡ none) ↔ Coherent p.mode p
validate-Coherent p = (validate_sound p.mode p refl, validate_complete p.mode p refl)

-- Each error of `Validate` is `ErrInvalidDNSPolicy` for `errors.Is`.
pub is?-validate :
    (p : DnsPolicy) → is? (validate p) invalid_dns_policy_sentinel ≡ is_some (validate p)
unfolding validate join is?
is?-validate p = ground arith
