-- ===== src/Examples/Resolvers.antt =====
-- The resolver's theorems at a response and at a configuration of two servers.
use wadjit.Prelude.{
  String, ◌≡◌, ◌↔◌, ◌||◌, refl, none, some, List, [], ◌∷◌, pos, str_eq, if◌then◌else◌, non_empty,
}
use wadjit.GoError.{GoError, Sentinel, no_ttl_answer, external, is, is?}
use wadjit.Dns.Address.{v4}
use wadjit.Dns.Resolver.{
  ResourceRecord, a, other_record, DnsConfig, Network, parse_answers, seconds, query_type,
  new_default_ttl_resolver, lookup_with_ttl, trim_dot, lookup,
}
use wadjit.Dns.Resolver.Answers.{answers, addrs_of, least_positive, parse_answers-answers}
use wadjit.Dns.Resolver.Once.{Resolves, lookup-Resolves, lookups, first_asked, loaded}
use wadjit.Dns.Resolver.Config.{lookups-loaded}
use wadjit.Dns.Resolver.Servers.{AnsweredBy, query_type-AnsweredBy}

abbrev records : List ResourceRecord
records =
    record { header_ttl = some 300; body = other_record }
    ∷ record { header_ttl = some 60; body = a (10 ∷ 0 ∷ 0 ∷ 1 ∷ []) }
    ∷ record { header_ttl = some 30; body = a (10 ∷ 0 ∷ 0 ∷ 2 ∷ []) }
    ∷ []

parse_answers-answers_example : parse_answers records ≡ (
    if non_empty (answers records)
    then record {
      addrs = addrs_of (answers records);
      ttl = seconds (least_positive (answers records));
      err = none;
    }
    else record { addrs = []; ttl = pos 0; err = some no_ttl_answer })
parse_answers-answers_example = parse_answers-answers records

parsed_ttl : (parse_answers records).ttl ≡ pos 30000000000
unfolding parse_answers
parsed_ttl = refl

abbrev config : DnsConfig
config = record { servers = "192.0.2.1" ∷ "192.0.2.2" ∷ []; port = "53" }

-- The first server does not answer.
abbrev two_servers : Network
two_servers = record {
  parse_addr = λ s. none;
  config_file = (config, none);
  fqdn = λ s. s;
  ctx_err = λ s q. none;
  exchange_context = λ s p host q.
      if str_eq s "192.0.2.2"
      then (some (record { rcode = 0; answer = records }), none)
      else (none, some (external 110));
  lookup_net_ip = λ s. ([], some (external 2));
}

query_type-AnsweredBy_example :
    AnsweredBy two_servers config "a.example" 1 config.servers
      (query_type two_servers config "a.example" 1)
unfolding query_type is
query_type-AnsweredBy_example = query_type-AnsweredBy two_servers config "a.example" 1 refl

-- The servers are not needed for the text of an address, and nothing is loaded for it.
abbrev literal : Network
literal = record two_servers { parse_addr = λ s. some (v4 (192 ∷ 0 ∷ 2 ∷ 9 ∷ [])) }

abbrev failing : Network
failing = record two_servers { exchange_context = λ s p host q. (none, some (external 110)) }

lookup-Resolves_example :
    (((lookup failing "a.example" new_default_ttl_resolver).1.err ≡ none)
      ↔ Resolves failing "a.example" new_default_ttl_resolver)
    × ((e : GoError) (target : Sentinel)
        → (lookup failing "a.example" new_default_ttl_resolver).1.err ≡ some e
        → is? (some e) target ≡ (
            is?
              (lookup_with_ttl failing (trim_dot "a.example") new_default_ttl_resolver).1.err
              target
            || is? (some (external 2)) target))
lookup-Resolves_example = lookup-Resolves failing "a.example" new_default_ttl_resolver

abbrev asked : List (Network × String)
asked = (literal, "192.0.2.9") ∷ (two_servers, "a.example") ∷ []

lookups-loaded_example :
    (lookups asked new_default_ttl_resolver ≡ loaded two_servers)
    × (lookup
          (record failing { config_file = (config, some (external 3)) })
          "b.example"
          (lookups asked new_default_ttl_resolver)
        ≡ lookup failing "b.example" (lookups asked new_default_ttl_resolver))
unfolding first_asked
lookups-loaded_example =
    lookups-loaded failing (config, some (external 3)) asked two_servers "b.example" refl
