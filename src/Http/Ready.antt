-- ===== src/Http/Ready.antt =====
-- A valid endpoint can be initialised.
use wadjit.Prelude.{ℕ, String, ◌≡◌, true, false, Option, none, some, arith, str_eq, is_some}
use wadjit.Run.{Returns}
use wadjit.Dns.Policy.{TtlResolver}
use wadjit.Dns.Manager.{new_dns_policy_manager}
use wadjit.Http.Endpoint.{HttpEndpoint, validate_http, initialize_http}

-- What `Initialize` has done.
pub record IsInitialized (resolver : TtlResolver) (watcher_id : String) (chan : Option ℕ)
    (before after : HttpEndpoint) : Type 0 where
  pub has_url : is_some after.url ≡ true
  pub has_header : is_some after.header ≡ true
  pub has_id : str_eq after.id "" ≡ false
  pub has_client : is_some after.client ≡ true
  pub has_manager :
      after.dns_mgr ≡ some (new_dns_policy_manager resolver before.dns_policy before.hooked)
  pub watched : after.watcher_id ≡ watcher_id
  pub answers_on : after.resp_chan ≡ chan

-- Let the generated identifier be non-empty. If `Validate` reports no error, then `Initialize` of the
-- endpoint that it leaves returns none either, and the endpoint has a URL, a header, an identifier, a
-- client, a new manager of its policy, and the watcher and channel that it was given.
pub validate_http-initialize_http :
    (resolver : TtlResolver) (xid watcher_id : String) (chan : Option ℕ) (e : HttpEndpoint)
    → str_eq xid "" ≡ false
    → (validate_http xid e).1 ≡ none
    → Returns
        (initialize_http resolver watcher_id chan (validate_http xid e).0)
        λ r. (r.1 ≡ none) × IsInitialized resolver watcher_id chan e r.0
unfolding validate_http initialize_http
validate_http-initialize_http resolver xid watcher_id chan e h v = ground arith
