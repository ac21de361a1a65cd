-- ===== src/Dns.antt =====
-- The DNS side of an HTTP endpoint: the policy, the manager that applies it to each request, and
-- the default resolver (dns_policy.go, dns_policy_manager.go, dns_resolver.go).
pub mod Address
pub mod Policy
pub mod Manager
pub mod Guard
pub mod Lookup
pub mod Resolve
pub mod Request
pub mod Interleaving
pub mod Resolver
