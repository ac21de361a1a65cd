-- ===== src/Dns/Resolver.antt =====
-- dns_resolver.go: the default resolver. It asks the servers of the system configuration for A and
-- AAAA records with their TTLs, and falls back to the standard resolver, which knows no TTLs.
pub mod Answers
pub mod Servers
pub mod Once
pub mod Config
use Prim.Native.Char.{code}
use Prim.Native.String
use wadjit.Prelude.{
  ℕ, ◌*◌, String, Bool, true, false, not, ◌&&◌, ◌||◌, Option, none, some, List, [], ◌∷◌, ◌++◌, ◌==◌,
  length, is_some, non_empty, if◌then◌else◌, pos, ltb_ℤ,
}
use wadjit.Clock.{Duration}
use wadjit.GoError.{
  GoError, no_ttl_answer, join, is, no_ttl_answer_sentinel, canceled_sentinel,
  deadline_exceeded_sentinel,
}
use wadjit.Dns.Address.{Addr, v4, v6}
use wadjit.Dns.Policy.{ResolverAnswer}

-- A resource record of the DNS library: its header's TTL, a `uint32`, if it has a header, and the
-- address bytes of the two types that matter.
pub data RecordBody : Type 0 where
  a aaaa : List ℕ → RecordBody
  other_record : RecordBody

pub record ResourceRecord : Type 0 where
  pub header_ttl : Option ℕ
  pub body : RecordBody

-- `netip.AddrFromSlice`
abbrev pub addr_from_slice : List ℕ → Option Addr
addr_from_slice bytes =
    if length bytes == 4
    then some (v4 bytes)
    else if length bytes == 16
    then some (v6 bytes)
    else none

unfoldable pub extract_addr : RecordBody → Option Addr
extract_addr (a bytes) = addr_from_slice bytes
extract_addr (aaaa bytes) = addr_from_slice bytes
extract_addr other_record = none

-- `time.Duration(header.Ttl) * time.Second`
abbrev pub seconds : ℕ → Duration
seconds n = pos (n * 1000000000)

abbrev pub failed : GoError → ResolverAnswer
failed e = record { addrs = []; ttl = pos 0; err = some e }

-- The addresses so far, their least positive TTL, and whether there is one.
pub record Collected : Type 0 where
  pub addrs : List Addr
  pub min_ttl : Duration
  pub seen_ttl : Bool

abbrev pub nothing_collected : Collected
nothing_collected = record { addrs = []; min_ttl = pos 0; seen_ttl = false }

unfoldable pub collect : List Addr → Duration → Collected → Collected
collect new ttl c =
    if ltb_ℤ (pos 0) ttl && (not c.seen_ttl || ltb_ℤ ttl c.min_ttl)
    then record { addrs = c.addrs ++ new; min_ttl = ttl; seen_ttl = true }
    else record c { addrs = c.addrs ++ new }

unfoldable pub collected_answer : Collected → ResolverAnswer
collected_answer c =
    if non_empty c.addrs
    then record { addrs = c.addrs; ttl = c.min_ttl; err = none }
    else failed no_ttl_answer

parse_with : Option ℕ → Option Addr → Collected → Collected
unfolding collect
parse_with none addr c = c
parse_with (some ttl) none c = c
parse_with (some ttl) (some addr) c = collect (addr ∷ []) (seconds ttl) c

unfoldable pub parse_from : Collected → List ResourceRecord → Collected
unfolding parse_with extract_addr
parse_from c [] = c
parse_from c (rr ∷ rrs) = parse_from (parse_with rr.header_ttl (extract_addr rr.body) c) rrs

unfoldable pub parse_answers : List ResourceRecord → ResolverAnswer
unfolding parse_from collected_answer
parse_answers rrs = collected_answer (parse_from nothing_collected rrs)

pub record DnsResponse : Type 0 where
  pub rcode : ℕ
  pub answer : List ResourceRecord

pub record DnsConfig : Type 0 where
  pub servers : List String
  pub port : String

-- What a lookup meets: the libraries, the network and its context, at the moment of the call.
pub record Network : Type 0 where
  -- `netip.ParseAddr`
  pub parse_addr : String → Option Addr
  -- `dns.ClientConfigFromFile("/etc/resolv.conf")`
  pub config_file : DnsConfig × Option GoError
  -- `dns.Fqdn`
  pub fqdn : String → String
  -- `ctx.Err()`, before a server is asked for a record type
  pub ctx_err : String → ℕ → Option GoError
  -- `client.ExchangeContext` with a server and a port, for a name and a record type
  pub exchange_context : String → String → String → ℕ → Option DnsResponse × Option GoError
  -- `stdResolver.LookupNetIP`
  pub lookup_net_ip : String → List Addr × Option GoError

parse_response : Option DnsResponse → ResolverAnswer
unfolding parse_answers
parse_response none = failed no_ttl_answer
parse_response (some resp) =
    if resp.rcode == 0 then parse_answers resp.answer else failed no_ttl_answer

unfoldable pub exchange : Network → DnsConfig → String → ℕ → String → ResolverAnswer
unfolding parse_response
exchange net cfg host qtype server =
    let (resp, err) = net.exchange_context server cfg.port (net.fqdn host) qtype in
    elim err [ some e ↦ failed e | none ↦ parse_response resp ]

-- An answer that ends the loop over the servers.
ends_query : ResolverAnswer → Bool
ends_query r = elim r.err [
  | some e ↦
      not (is e no_ttl_answer_sentinel)
      && (is e canceled_sentinel || is e deadline_exceeded_sentinel)
  | none ↦ non_empty r.addrs
]

abbrev ended : ResolverAnswer → ResolverAnswer
ended r = elim r.err [ some e ↦ failed e | none ↦ r ]

unfoldable pub query_servers : Network → DnsConfig → String → ℕ → List String → ResolverAnswer
unfolding ends_query exchange
query_servers net cfg host qtype [] = failed no_ttl_answer
query_servers net cfg host qtype (server ∷ servers) =
    let rest = query_servers net cfg host qtype servers in
    let answer = exchange net cfg host qtype server in
    elim (net.ctx_err server qtype) [
      | some e ↦ failed e
      | none ↦ if ends_query answer then ended answer else rest
    ]

unfoldable pub query_type : Network → DnsConfig → String → ℕ → ResolverAnswer
unfolding query_servers
query_type net cfg host qtype = query_servers net cfg host qtype cfg.servers

query_types : Network → DnsConfig → String → Collected → List ℕ → Option GoError × Collected
unfolding query_type collect
query_types net cfg host c [] = (none, c)
query_types net cfg host c (qtype ∷ qtypes) =
    let answer = query_type net cfg host qtype in
    let next : Collected =
      if non_empty answer.addrs then collect answer.addrs answer.ttl c else c in
    let skipped = query_types net cfg host c qtypes in
    let gone_on = query_types net cfg host next qtypes in
    elim answer.err [
      | some e ↦ if is e no_ttl_answer_sentinel then skipped else (some e, c)
      | none ↦ gone_on
    ]

-- `dns.TypeA` and `dns.TypeAAAA`
abbrev queried_types : List ℕ
queried_types = 1 ∷ 28 ∷ []

answer_of : Option GoError × Collected → ResolverAnswer
unfolding collected_answer
answer_of (some e, c) = failed e
answer_of (none, c) = collected_answer c

-- The state of a resolver: whether its configuration was loaded, and what that gave.
pub record DefaultTtlResolver : Type 0 where
  pub once_done : Bool
  pub cfg : DnsConfig
  pub cfg_err : Option GoError

unfoldable pub new_default_ttl_resolver : DefaultTtlResolver
new_default_ttl_resolver = record {
  once_done = false;
  cfg = record { servers = []; port = "" };
  cfg_err = none;
}

unfoldable pub init_config : Network → DefaultTtlResolver → DefaultTtlResolver
init_config net r =
    if r.once_done
    then r
    else record { once_done = true; cfg = net.config_file.0; cfg_err = net.config_file.1 }

unfoldable pub lookup_with_ttl :
    Network → String → DefaultTtlResolver → DefaultTtlResolver × ResolverAnswer
unfolding init_config query_types answer_of
lookup_with_ttl net host r =
    let r' = init_config net r in
    (
      r',
      elim r'.cfg_err [
        | some e ↦ failed e
        | none ↦ answer_of (query_types net r'.cfg host nothing_collected queried_types)
      ],
    )

-- `strings.TrimSuffix(host, ".")`
unfoldable pub trim_dot : String → String
trim_dot String.[] = String.[]
trim_dot (String.◌∷◌ c String.[]) = if code c == b'.' then String.[] else String.◌∷◌ c String.[]
trim_dot (String.◌∷◌ c (String.◌∷◌ d s)) = String.◌∷◌ c (trim_dot (String.◌∷◌ d s))

fall_back : Option GoError → List Addr × Option GoError → ResolverAnswer
unfolding join
fall_back err (ips, none) = record { addrs = ips; ttl = pos 0; err = none }
fall_back none (ips, some e) = failed e
fall_back (some e) (ips, some e') = record {
  addrs = [];
  ttl = pos 0;
  err = join (some e) (some e');
}

-- An answer with a TTL, if there is one, and else that of the standard resolver.
settle : Network → String → ResolverAnswer → ResolverAnswer
unfolding fall_back
settle net host answer =
    if not (is_some answer.err) && non_empty answer.addrs
    then answer
    else fall_back answer.err (net.lookup_net_ip host)

unfoldable pub lookup : Network → String → DefaultTtlResolver → DefaultTtlResolver × ResolverAnswer
unfolding lookup_with_ttl trim_dot settle
lookup net host r = elim (net.parse_addr host) [
  | some ip ↦ (r, record { addrs = ip ∷ []; ttl = pos 0; err = none })
  | none ↦ let (r', answer) = lookup_with_ttl net (trim_dot host) r in (r', settle net host answer)
]

-- The resolver as the manager calls it, at the moments of a network, once it is configured.
unfoldable pub as_ttl_resolver : (ℕ → Network) → DefaultTtlResolver → ℕ → String → ResolverAnswer
unfolding lookup
as_ttl_resolver net r moment host = (lookup (net moment) host r).1
