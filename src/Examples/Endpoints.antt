-- ===== src/Examples/Endpoints.antt =====
-- The theorems on HTTP endpoints at an endpoint in TTL mode.
use wadjit.Prelude.{refl, false, none, some, List, [], ◌∷◌, inl, inr, pos}
use wadjit.GoError.{external}
use wadjit.Outcome.{Finishes}
use wadjit.Dns.Address.{v4}
use wadjit.Dns.Policy.{ttl_mode, fallback_enabled}
use wadjit.Dns.Manager.{DnsPolicyManager, new_dns_policy_manager}
use wadjit.Dns.Lookup.{lookup}
use wadjit.Dns.Resolve.Ttl.{ttl_forced, resolve_ttl}
use wadjit.Dns.Resolve.Modes.{resolve}
use wadjit.Dns.Request.{RoundTripped, port_of, prepare_request, round_trip}
use wadjit.Http.Endpoint.{
  HttpUrl, HttpEndpoint, HttpEndpointOption, with_dns_policy, with_id, new_http_endpoint,
}
use wadjit.Http.Execute.{HttpRequest, HttpCalls, execute_http}
use wadjit.Http.Answers.{One, IsReady, MetadataFallback, execute_http-round_trip}
use wadjit.Examples.{policy, manager, moments, url, no_values, result_or}

abbrev pub http_url : HttpUrl
http_url = record { text = "https://a.example/"; parts = url }

abbrev options : List HttpEndpointOption
options = with_dns_policy (policy ttl_mode (pos 0)) ∷ with_id "t" ∷ []

abbrev created : HttpEndpoint
created = new_http_endpoint (policy ttl_mode (pos 9)) "x" (some http_url) "GET" options

-- A manager with a cached address that has expired.
abbrev pub expired : DnsPolicyManager
expired = record (manager ttl_mode (pos 0)) {
  cache = record {
    addrs = v4 (10 ∷ 0 ∷ 0 ∷ 1 ∷ []) ∷ [];
    expires_at = pos 130;
    last_lookup = pos 100;
  };
}

abbrev pub endpoint : HttpEndpoint
endpoint = record created {
  client = some (record { skips_verify_of = none });
  dns_mgr = some expired;
  watcher_id = "w";
  resp_chan = some 3;
}

abbrev nothing_sent : RoundTripped
nothing_sent = record { manager = expired; sent = none; err = none; effects = [] }

abbrev tripped : RoundTripped
tripped = result_or nothing_sent (round_trip (moments 131 1) no_values url expired)

abbrev pub calls : HttpCalls
calls = record {
  new_request_err = none;
  round_trips = λ m. tripped.manager;
  result = inr (external 8);
  trace = [];
  in_time = false;
  observed_at = pos 132;
  read_at = pos 133;
}

abbrev request : HttpRequest
request = record { resp_chan = some 3; body_bytes = []; method = "GET" }

endpoint-IsReady : IsReady request endpoint http_url expired
unfolding new_http_endpoint
endpoint-IsReady = record { has_url = refl; has_client = refl; has_manager = refl; has_chan = refl }

execute_http-round_trip_example :
    Finishes (execute_http request calls endpoint) λ s. One (MetadataFallback (external 7)) s.sent
unfolding round_trip prepare_request resolve resolve_ttl lookup new_dns_policy_manager ttl_forced
    port_of fallback_enabled
execute_http-round_trip_example =
    execute_http-round_trip request calls endpoint http_url expired (moments 131 1) no_values
      (external 7) (external 8) tripped endpoint-IsReady refl refl refl refl (inl (refl, refl)) refl
      refl refl refl
