-- ===== src/Http/Endpoint.antt =====
-- The state of an `HTTPEndpoint`, its options, and how it is validated and initialised (task_http.go).
use wadjit.Prelude.{
  ℕ, String, Bool, true, false, Option, none, some, List, [], ◌∷◌, str_eq, if◌then◌else◌,
}
use wadjit.GoError.{GoError, message}
use wadjit.Run.{Run, returns, panics, ◌>>=◌}
use wadjit.Dns.Policy.{DnsPolicy, TtlResolver, validate}
use wadjit.Dns.Manager.{DnsPolicyManager, new_dns_policy_manager}
use wadjit.Dns.Request.{RequestUrl}
use wadjit.Header.{HttpHeader}

-- A URL: its text, and what its methods give.
pub record HttpUrl : Type 0 where
  pub text : String
  pub parts : RequestUrl

-- An `http.Client` over the transport that `Initialize` builds: the server name of the TLS settings, if
-- they turn the verification off. The transport and its dialer share the endpoint's manager.
pub record HttpClient : Type 0 where
  pub skips_verify_of : Option String

-- `hooked` says whether a decision hook is set.
pub record HttpEndpoint : Type 0 where
  pub header : Option HttpHeader
  pub method : String
  pub payload : List ℕ
  pub url : Option HttpUrl
  pub id : String
  pub client : Option HttpClient
  pub dns_policy : DnsPolicy
  pub hooked : Bool
  pub dns_mgr : Option DnsPolicyManager
  pub dns_policy_set : Bool
  pub tls_skip_verify : Bool
  pub opt_read_fast : Bool
  pub watcher_id : String
  pub resp_chan : Option ℕ

abbrev pub close_http : HttpEndpoint → HttpEndpoint × Option GoError
close_http e = (e, none)

-- The server name is read off the URL, which must not be nil.
server_name : HttpEndpoint → Run (Option String)
server_name e =
    if e.tls_skip_verify
    then elim e.url [
      | none ↦ panics
      | some u ↦ returns (if str_eq u.parts.scheme "https" then some u.parts.hostname else none)
    ]
    else returns none

with_manager : TtlResolver → Option String → HttpEndpoint → HttpEndpoint × Option GoError
with_manager default_resolver name e = elim (validate e.dns_policy) [
  | some err ↦ (e, some err)
  | none ↦ (
    record e {
      dns_mgr = some (new_dns_policy_manager default_resolver e.dns_policy e.hooked);
      client = some (record { skips_verify_of = name });
    },
    none,
  )
]

unfoldable pub initialize_http :
    TtlResolver → String → Option ℕ → HttpEndpoint → Run (HttpEndpoint × Option GoError)
unfolding server_name with_manager
initialize_http default_resolver watcher_id response_channel e = do
  name ← server_name e
  returns (
      with_manager default_resolver name
        (record e { watcher_id = watcher_id; resp_chan = response_channel }))

-- `xid` is the identifier that `xid.New().String()` gives.
unfoldable pub validate_http : String → HttpEndpoint → HttpEndpoint × Option GoError
validate_http xid e = elim e.url [
  | none ↦ (e, some (message "URL is nil"))
  | some u ↦ (
    record e {
      header = elim e.header [ none ↦ some [] | some h ↦ some h ];
      id = if str_eq e.id "" then xid else e.id;
    },
    validate e.dns_policy,
  )
]

-- The functional options `WithDNSPolicy` to `WithTLSSkipVerify`.
pub data HttpEndpointOption : Type 0 where
  with_dns_policy : DnsPolicy → HttpEndpointOption
  with_dns_decision_hook : Bool → HttpEndpointOption
  with_header : Option HttpHeader → HttpEndpointOption
  with_id : String → HttpEndpointOption
  with_payload : List ℕ → HttpEndpointOption
  with_read_fast with_tls_skip_verify : HttpEndpointOption

unfoldable pub apply : HttpEndpointOption → HttpEndpoint → HttpEndpoint
apply (with_dns_policy policy) e = record e { dns_policy = policy; dns_policy_set = true }
apply (with_dns_decision_hook is_set) e = record e { hooked = is_set }
apply (with_header h) e = record e { header = h }
apply (with_id id) e = record e { id = id }
apply (with_payload bytes) e = record e { payload = bytes }
apply with_read_fast e = record e { opt_read_fast = true }
apply with_tls_skip_verify e = record e { tls_skip_verify = true }

unfoldable pub apply_all : List HttpEndpointOption → HttpEndpoint → HttpEndpoint
unfolding apply
apply_all [] e = e
apply_all (o ∷ opts) e = apply_all opts (apply o e)

-- `zero_policy` is the zero value of a policy.
unfoldable pub new_http_endpoint :
    DnsPolicy → String → Option HttpUrl → String → List HttpEndpointOption → HttpEndpoint
unfolding apply_all
new_http_endpoint zero_policy xid url method opts = apply_all opts (record {
  header = some [];
  method = method;
  payload = [];
  url = url;
  id = xid;
  client = none;
  dns_policy = zero_policy;
  hooked = false;
  dns_mgr = none;
  dns_policy_set = false;
  tls_skip_verify = false;
  opt_read_fast = false;
  watcher_id = "";
  resp_chan = none;
})
