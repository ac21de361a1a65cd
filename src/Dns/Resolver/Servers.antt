-- ===== src/Dns/Resolver/Servers.antt =====
-- The loop of `queryType` over the configured servers.
use wadjit.Prelude.{
  ℕ, String, ◌≡◌, refl, Bool, true, false, none, List, [], ◌∷◌, ◌++◌, arith, ap, ◌∙◌, non_empty,
  Bool-cases, inl, inr, not, ◌&&◌, is_some,
}
use wadjit.Dns.Policy.{ResolverAnswer}
use wadjit.Dns.Resolver.{Network, DnsConfig, exchange, query_servers, query_type}

-- An answer with addresses and no error.
abbrev pub has_addrs : ResolverAnswer → Bool
has_addrs r = not (is_some r.err) && non_empty r.addrs

module _ (net : Network) (cfg : DnsConfig) (host : String) (qtype : ℕ) where
  -- Each server of the list was asked, and had no addresses.
  abbrev pub PassedOver : List String → Type 0
  PassedOver [] = Unit {0}
  PassedOver (s ∷ ss) =
      (net.ctx_err s qtype ≡ none)
      × (has_addrs (exchange net cfg host qtype s) ≡ false)
      × PassedOver ss

  -- The first server with addresses, and those that were passed over for it.
  pub record AnsweredBy (servers : List String) (r : ResolverAnswer) : Type 0 where
    pub before : List String
    pub server : String
    pub after : List String
    pub parts : servers ≡ before ++ server ∷ after
    pub passed_over : PassedOver before
    pub live : net.ctx_err server qtype ≡ none
    pub answer : exchange net cfg host qtype server ≡ r

  answers_at :
      (s : String) (ss : List String)
      → has_addrs (query_servers net cfg host qtype (s ∷ ss)) ≡ true
      → has_addrs (exchange net cfg host qtype s) ≡ true
      → (net.ctx_err s qtype ≡ none)
        × (exchange net cfg host qtype s ≡ query_servers net cfg host qtype (s ∷ ss))
  unfolding query_servers
  answers_at s ss h a = ground arith

  goes_on :
      (s : String) (ss : List String)
      → has_addrs (query_servers net cfg host qtype (s ∷ ss)) ≡ true
      → has_addrs (exchange net cfg host qtype s) ≡ false
      → (net.ctx_err s qtype ≡ none)
        × (query_servers net cfg host qtype ss ≡ query_servers net cfg host qtype (s ∷ ss))
  unfolding query_servers
  goes_on s ss h a = ground arith

  no_server_no_addrs : has_addrs (query_servers net cfg host qtype []) ≡ false
  unfolding query_servers
  no_server_no_addrs = refl

  query_servers-AnsweredBy :
      (servers : List String)
      → has_addrs (query_servers net cfg host qtype servers) ≡ true
      → AnsweredBy servers (query_servers net cfg host qtype servers)
  query_servers-AnsweredBy [] h = cc no_server_no_addrs
  query_servers-AnsweredBy (s ∷ ss) h =
      elim (Bool-cases (has_addrs (exchange net cfg host qtype s))) [
        | inl a ↦ record {
          before = [];
          server = s;
          after = ss;
          parts = refl;
          passed_over = tt;
          live = (answers_at s ss h a).0;
          answer = (answers_at s ss h a).1;
        }
        | inr a ↦
            let (live, same) = goes_on s ss h a in
            let rest = query_servers-AnsweredBy ss (ap has_addrs same ∙ h) in
            record {
              before = s ∷ rest.before;
              server = rest.server;
              after = rest.after;
              parts = ap (◌∷◌ s) rest.parts;
              passed_over = (live, a, rest.passed_over);
              live = rest.live;
              answer = rest.answer ∙ same;
            }
      ]

  -- When `queryType` returns addresses, they and their TTL are those of the first configured server
  -- whose exchange gave any: each server before it was asked, while the context was live, and failed
  -- or had none.
  pub query_type-AnsweredBy :
      has_addrs (query_type net cfg host qtype) ≡ true
      → AnsweredBy cfg.servers (query_type net cfg host qtype)
  unfolding query_type
  query_type-AnsweredBy h = query_servers-AnsweredBy cfg.servers h
