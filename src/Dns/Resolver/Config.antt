-- ===== src/Dns/Resolver/Config.antt =====
-- Once a resolver has loaded its configuration, the file has no influence on what it looks up
-- (dns_resolver.go).
use wadjit.Prelude.{
  ℕ, String, ◌≡◌, refl, ◌∙◌, true, if◌then◌else◌, non_empty, Option, some, List, [], ◌∷◌, arith,
}
use wadjit.GoError.{GoError}
use wadjit.Dns.Resolver.{
  Network, DnsConfig, Collected, DefaultTtlResolver, exchange, query_servers, query_type,
  query_types, collect, init_config, lookup_with_ttl, settle, lookup, trim_dot, nothing_collected,
  queried_types, new_default_ttl_resolver,
}
use wadjit.Dns.Resolver.Once.{lookups, first_asked, loaded, lookups-first_asked}

module _ (net : Network) (file : DnsConfig × Option GoError) where
  -- The same outside, with another configuration file.
  abbrev pub other : Network
  other = record net { config_file = file }

  same_servers :
      (cfg : DnsConfig) (host : String) (qtype : ℕ) (servers : List String)
      → query_servers other cfg host qtype servers ≡ query_servers net cfg host qtype servers
  unfolding query_servers exchange
  same_servers cfg host qtype [] = refl
  same_servers cfg host qtype (s ∷ ss) = ground (arith, same_servers cfg host qtype ss)

  same_types :
      (cfg : DnsConfig) (host : String) (c : Collected) (qtypes : List ℕ)
      → query_types other cfg host c qtypes ≡ query_types net cfg host c qtypes
  unfolding query_types query_type
  same_types cfg host c [] = refl
  same_types cfg host c (q ∷ qs) =
      let answer = query_type net cfg host q in
      let next : Collected =
        if non_empty answer.addrs then collect answer.addrs answer.ttl c else c in
      ground (
        arith,
        same_servers cfg host q cfg.servers,
        same_types cfg host c qs,
        same_types cfg host next qs,
      )

  lookup_with_ttl-other :
      (host : String) (r : DefaultTtlResolver)
      → r.once_done ≡ true
      → lookup_with_ttl other host r ≡ lookup_with_ttl net host r
  unfolding lookup_with_ttl init_config
  lookup_with_ttl-other host r h =
      ground (arith, same_types r.cfg host nothing_collected queried_types)

  lookup-other :
      (host : String) (r : DefaultTtlResolver)
      → r.once_done ≡ true
      → lookup other host r ≡ lookup net host r
  unfolding lookup settle
  lookup-other host r h = ground (arith, lookup_with_ttl-other (trim_dot host) r)

  -- Let a new resolver have made lookups, and let `first` be what the first of them met whose host is
  -- not the text of an address. The resolver has the configuration that it loaded then, with its error,
  -- and a further lookup has the same result whatever the configuration file has become.
  pub lookups-loaded :
      (l : List (Network × String)) (first : Network) (host : String)
      → first_asked l ≡ some first
      → (lookups l new_default_ttl_resolver ≡ loaded first)
        × (lookup other host (lookups l new_default_ttl_resolver)
            ≡ lookup net host (lookups l new_default_ttl_resolver))
  lookups-loaded l first host h =
      let now : lookups l new_default_ttl_resolver ≡ loaded first =
        lookups-first_asked l ∙ rw h refl in
      (now, rw now (lookup-other host (loaded first) refl))
