-- ===== src/Dns/Resolver/Once.antt =====
-- The two ways of `Lookup`, and the configuration that it loads once (dns_resolver.go).
use wadjit.Prelude.{
  String, ◌≡◌, ◌↔◌, ◌⊎◌, inl, inr, refl, true, ◌||◌, Option, none, some, List, [], ◌∷◌, is_some,
  Option-cases, arith,
}
use wadjit.GoError.{GoError, Sentinel, is?, is?-join}
use wadjit.Dns.Address.{Addr}
use wadjit.Dns.Policy.{ResolverAnswer}
use wadjit.Dns.Resolver.{
  Network, DefaultTtlResolver, new_default_ttl_resolver, init_config, trim_dot, lookup_with_ttl,
  settle, fall_back, lookup,
}
use wadjit.Dns.Resolver.Servers.{has_addrs}

-- The ways to an answer with no error: the host is an address, the servers have addresses for it, or
-- the standard resolver does not fail.
abbrev pub Resolves : Network → String → DefaultTtlResolver → Type 0
Resolves net host r =
    (is_some (net.parse_addr host) ≡ true)
    ⊎ (has_addrs (lookup_with_ttl net (trim_dot host) r).1 ≡ true)
    ⊎ ((net.lookup_net_ip host).1 ≡ none)

module _ (net : Network) (host : String) where
  settle-fails :
      (answer : ResolverAnswer)
      → ((settle net host answer).err ≡ none)
        ↔ (has_addrs answer ≡ true) ⊎ ((net.lookup_net_ip host).1 ≡ none)
  unfolding settle fall_back
  settle-fails answer = ground arith

  settle-is :
      (answer : ResolverAnswer) (e : GoError) (target : Sentinel)
      → (settle net host answer).err ≡ some e
      → is? (some e) target ≡ (is? answer.err target || is? (net.lookup_net_ip host).1 target)
  unfolding settle fall_back is?
  settle-is answer e target h =
      ground (arith, is?-join answer.err (net.lookup_net_ip host).1 target)

  -- `Lookup` reports no error exactly if the host is the text of an address, or the configured servers
  -- have addresses for it, or the standard resolver does not fail. An error that it reports matches a
  -- target exactly if that of the servers or that of the standard resolver does.
  pub lookup-Resolves :
      (r : DefaultTtlResolver)
      → (((lookup net host r).1.err ≡ none) ↔ Resolves net host r)
        × ((e : GoError) (target : Sentinel)
            → (lookup net host r).1.err ≡ some e
            → is? (some e) target ≡ (
                is? (lookup_with_ttl net (trim_dot host) r).1.err target
                || is? (net.lookup_net_ip host).1 target))
  unfolding lookup
  lookup-Resolves r =
      let answer = (lookup_with_ttl net (trim_dot host) r).1 in
      (ground (arith, settle-fails answer), λ e target h. ground (arith, settle-is answer e target))

-- Lookups one after another, each with what it meets outside.
pub lookups : List (Network × String) → DefaultTtlResolver → DefaultTtlResolver
lookups [] r = r
lookups ((net, host) ∷ l) r = lookups l (lookup net host r).0

-- What the first lookup of a host that is not the text of an address meets.
unfoldable pub first_asked : List (Network × String) → Option Network
first_asked [] = none
first_asked ((net, host) ∷ l) = elim (net.parse_addr host) [
  | some ip ↦ first_asked l
  | none ↦ some net
]

-- A resolver that has loaded its configuration.
abbrev pub loaded : Network → DefaultTtlResolver
loaded net = record { once_done = true; cfg = net.config_file.0; cfg_err = net.config_file.1 }

lookup_keeps :
    (net : Network) (host : String) (r : DefaultTtlResolver)
    → r.once_done ≡ true
    → (lookup net host r).0 ≡ r
unfolding lookup lookup_with_ttl init_config
lookup_keeps net host r h = ground arith

lookups_keep :
    (l : List (Network × String)) (r : DefaultTtlResolver) → r.once_done ≡ true → lookups l r ≡ r
unfolding lookups
lookups_keep [] r h = refl
lookups_keep ((net, host) ∷ l) r h = rw (lookup_keeps net host r h) (lookups_keep l r h)

lookup_literal :
    (net : Network) (host : String) (ip : Addr) (r : DefaultTtlResolver)
    → net.parse_addr host ≡ some ip
    → (lookup net host r).0 ≡ r
unfolding lookup
lookup_literal net host ip r h = ground arith

lookup_loads :
    (net : Network) (host : String)
    → net.parse_addr host ≡ none
    → (lookup net host new_default_ttl_resolver).0 ≡ loaded net
unfolding lookup lookup_with_ttl init_config new_default_ttl_resolver
lookup_loads net host h = ground arith

-- Whatever the outside gives to each lookup: the configuration that a new resolver has after any lookups
-- is the one that the first of them loaded whose host is not the text of an address.
pub lookups-first_asked :
    (l : List (Network × String))
    → lookups l new_default_ttl_resolver
      ≡ elim (first_asked l) [ none ↦ new_default_ttl_resolver | some net ↦ loaded net ]
unfolding lookups first_asked
lookups-first_asked [] = refl
lookups-first_asked ((net, host) ∷ l) = elim (Option-cases (net.parse_addr host)) [
  | inl asks ↦ rw asks (rw (lookup_loads net host asks) (lookups_keep l (loaded net) refl))
  | inr (ip, literal) ↦
      rw literal
        (rw (lookup_literal net host ip new_default_ttl_resolver literal) (lookups-first_asked l))
]
