-- ===== src/Dns/Lookup.antt =====
-- `lookup` of dns_policy_manager.go: a coalesced call of the resolver, which the caller waits for
-- until its own context is done.
pub mod NonEmpty
use wadjit.Prelude.{ℕ, String, Option, none, some, List, [], ◌∷◌, non_empty, if◌then◌else◌, pos}
use wadjit.Clock.{Duration}
use wadjit.GoError.{GoError, message}
use wadjit.Dns.Address.{Addr}
use wadjit.Dns.Policy.{TtlResolver, ResolverAnswer}
use wadjit.Dns.Manager.{DnsPolicyManager, Effect, awaits_lookup}

-- What the `select` of a caller receives first: the result of the flight for its host, in which the
-- resolver was asked at a moment and took some time, or the end of its context.
pub data Wait : Type 0 where
  flight : ℕ → Duration → Wait
  ctx_done : GoError → Wait

pub record LfResult : Type 0 where
  pub addrs : List Addr
  pub ttl : Duration
  pub lookup_dur : Duration

-- `singleflight.Result`; a `Val` that is no `lfResult` is `none`
record FlightResult : Type 0 where
  val : Option LfResult
  err : Option GoError

fly_answer : Duration → ResolverAnswer → FlightResult
fly_answer dur answer = elim answer.err [
  | some e ↦ record { val = none; err = some e }
  | none ↦
      if non_empty answer.addrs
      then record {
        val = some (record { addrs = answer.addrs; ttl = answer.ttl; lookup_dur = dur });
        err = none;
      }
      else record { val = none; err = some (message "resolver returned no addresses") }
]

-- The values that `lookup` returns together.
pub record LookupReturn : Type 0 where
  pub addrs : List Addr
  pub ttl : Duration
  pub lookup_dur : Duration
  pub err : Option GoError

abbrev pub failed_lookup : GoError → LookupReturn
failed_lookup e = record { addrs = []; ttl = pos 0; lookup_dur = pos 0; err = some e }

receive_val : Option LfResult → LookupReturn
receive_val none = failed_lookup (message "unexpected result type")
receive_val (some out) = record {
  addrs = out.addrs;
  ttl = out.ttl;
  lookup_dur = out.lookup_dur;
  err = none;
}

receive : FlightResult → LookupReturn
unfolding receive_val
receive res = elim res.err [ some e ↦ failed_lookup e | none ↦ receive_val res.val ]

ask : Wait → String → TtlResolver → LookupReturn
unfolding receive fly_answer
ask (flight moment dur) host resolver = receive (fly_answer dur (resolver moment host))
ask (ctx_done e) host resolver = failed_lookup e

lookup_with : Wait → String → Option TtlResolver → LookupReturn
unfolding ask
lookup_with wait host none = failed_lookup (message "resolver not configured")
lookup_with wait host (some resolver) = ask wait host resolver

unfoldable pub lookup : Wait → String → DnsPolicyManager → LookupReturn
unfolding lookup_with
lookup wait host m = lookup_with wait host m.resolver

-- The wait of a lookup, if it comes to one.
unfoldable pub lookup_effects : String → DnsPolicyManager → List Effect
lookup_effects host m = elim m.resolver [ none ↦ [] | some resolver ↦ awaits_lookup host ∷ [] ]
