-- ===== src/Wadjit/Settings.antt =====
-- What the options amount to: the sizes of the channels, and which DNS policy an endpoint gets.
use wadjit.Prelude.{
  ◌≡◌, refl, true, false, Option, none, some, List, [], ◌∷◌, ◌++◌, if◌then◌else◌, ℤ, pos, ltb_ℤ,
  ◌≤ℤ◌, arith, String, sym, ap, ◌∙◌, subst,
}
use mathlib.Core.List.{append_assoc, append-nil}
use wadjit.Dns.Policy.{DnsPolicy}
use wadjit.Http.Endpoint.{
  HttpUrl, HttpEndpoint, HttpEndpointOption, with_dns_policy, apply_all, new_http_endpoint,
}
use wadjit.Http.Endpoint
use wadjit.Wadjit.Options.{
  default_response_chan_buffer_size, Options, WadjitOption, with_buffer_size,
  with_default_dns_policy, with_logger, with_taskman_options, filtered, apply, apply_each,
  apply_options,
}
use wadjit.Wadjit.Tasks.{http_task, with_default}

module _ {O L : Type 0} where
  -- The last size that is not negative, or else the given one.
  abbrev pub last_size : ℤ → List (Option (WadjitOption O L)) → ℤ
  last_size d [] = d
  last_size d (none ∷ l) = last_size d l
  last_size d (some (with_buffer_size n) ∷ l) = last_size (if ltb_ℤ n (pos 0) then d else n) l
  last_size d (some (with_default_dns_policy p) ∷ l) = last_size d l
  last_size d (some (with_logger a b) ∷ l) = last_size d l
  last_size d (some (with_taskman_options a) ∷ l) = last_size d l

  -- The task manager's options that one option of `New` stands for.
  abbrev pub taskman_of : Option (WadjitOption O L) → List O
  taskman_of (some (with_logger a b)) = b ∷ []
  taskman_of (some (with_taskman_options opts)) = filtered opts
  taskman_of (some (with_buffer_size n)) = []
  taskman_of (some (with_default_dns_policy p)) = []
  taskman_of none = []

  abbrev pub all_taskman : List (Option (WadjitOption O L)) → List O
  all_taskman [] = []
  all_taskman (o ∷ l) = taskman_of o ++ all_taskman l

  size-apply :
      (n : ℤ) (o : Options O L)
      → pos 0 ≤ℤ o.buffer_size
      → ((apply (with_buffer_size n) o).buffer_size
          ≡ (if ltb_ℤ n (pos 0) then o.buffer_size else n))
        × (pos 0 ≤ℤ (apply (with_buffer_size n) o).buffer_size)
  unfolding apply
  size-apply n o h = (ground arith, ground arith)

  size-apply_each :
      (l : List (Option (WadjitOption O L))) (o : Options O L)
      → pos 0 ≤ℤ o.buffer_size
      → ((apply_each l o).buffer_size ≡ last_size o.buffer_size l)
        × (pos 0 ≤ℤ last_size o.buffer_size l)
  unfolding apply_each
  size-apply_each [] o h = (refl, h)
  size-apply_each (none ∷ l) o h = size-apply_each l o h
  size-apply_each (some (with_buffer_size n) ∷ l) o h =
      let o' : Options O L = apply (with_buffer_size n) o in
      let sized = size-apply n o h in
      subst (λ z. ((apply_each l o').buffer_size ≡ last_size z l) × (pos 0 ≤ℤ last_size z l))
        sized.0 (size-apply_each l o' sized.1)
  size-apply_each (some (with_default_dns_policy p) ∷ l) o h =
      size-apply_each l (apply (with_default_dns_policy p) o) h
  size-apply_each (some (with_logger a b) ∷ l) o h = size-apply_each l (apply (with_logger a b) o) h
  size-apply_each (some (with_taskman_options a) ∷ l) o h =
      size-apply_each l (apply (with_taskman_options a) o) h

  taskman-apply :
      (opt : WadjitOption O L) (o : Options O L)
      → (apply opt o).taskman_options ≡ o.taskman_options ++ taskman_of (some opt)
  unfolding apply
  taskman-apply (with_buffer_size n) o = ground (arith, append-nil o.taskman_options)
  taskman-apply (with_default_dns_policy p) o = sym (append-nil o.taskman_options)
  taskman-apply (with_logger a b) o = refl
  taskman-apply (with_taskman_options a) o = refl

  taskman-apply_each :
      (l : List (Option (WadjitOption O L))) (o : Options O L)
      → (apply_each l o).taskman_options ≡ o.taskman_options ++ all_taskman l
  unfolding apply_each
  taskman-apply_each [] o = sym (append-nil o.taskman_options)
  taskman-apply_each (none ∷ l) o = taskman-apply_each l o
  taskman-apply_each (some opt ∷ l) o =
      taskman-apply_each l (apply opt o)
      ∙ ap (λ q. q ++ all_taskman l) (taskman-apply opt o)
      ∙ append_assoc o.taskman_options (taskman_of (some opt)) (all_taskman l)

  -- `applyOptions` gives the last buffer size that is not negative, or 512 if there is none, and all
  -- options of the task manager that are not nil, in order.
  pub apply_options-last_size :
      (nop : L) (zero_policy : DnsPolicy) (l : List (Option (WadjitOption O L)))
      → ((apply_options nop zero_policy l).buffer_size
          ≡ last_size default_response_chan_buffer_size l)
        × (pos 0 ≤ℤ (apply_options nop zero_policy l).buffer_size)
        × ((apply_options nop zero_policy l).taskman_options ≡ all_taskman l)
  unfolding apply_options
  apply_options-last_size nop zero_policy l =
      let start : Options O L = record {
        buffer_size = default_response_chan_buffer_size;
        default_dns_policy = zero_policy;
        has_default_dns_policy = false;
        logger = none;
        logger_set = false;
        taskman_options = [];
      } in
      let size = size-apply_each l start (omega arith) in
      ground (arith, size.0, size.1, taskman-apply_each l start)

-- The policy of the last `WithDNSPolicy`, if there is one.
abbrev pub last_policy : Option DnsPolicy → List HttpEndpointOption → Option DnsPolicy
last_policy d [] = d
last_policy d (with_dns_policy p ∷ l) = last_policy (some p) l
last_policy d (Endpoint.with_dns_decision_hook b ∷ l) = last_policy d l
last_policy d (Endpoint.with_header h ∷ l) = last_policy d l
last_policy d (Endpoint.with_id i ∷ l) = last_policy d l
last_policy d (Endpoint.with_payload b ∷ l) = last_policy d l
last_policy d (Endpoint.with_read_fast ∷ l) = last_policy d l
last_policy d (Endpoint.with_tls_skip_verify ∷ l) = last_policy d l

abbrev pub or_zero_policy : Option DnsPolicy → DnsPolicy → DnsPolicy
or_zero_policy none d = d
or_zero_policy (some p) d = p

abbrev own_policy : HttpEndpoint → Option DnsPolicy
own_policy e = if e.dns_policy_set then some e.dns_policy else none

own_policy-apply_all :
    (l : List HttpEndpointOption) (e : HttpEndpoint)
    → own_policy (apply_all l e) ≡ last_policy (own_policy e) l
unfolding apply_all
own_policy-apply_all [] e = refl
own_policy-apply_all (with_dns_policy p ∷ l) e =
    own_policy-apply_all l (Endpoint.apply (with_dns_policy p) e)
own_policy-apply_all (Endpoint.with_dns_decision_hook b ∷ l) e =
    own_policy-apply_all l (Endpoint.apply (Endpoint.with_dns_decision_hook b) e)
own_policy-apply_all (Endpoint.with_header h ∷ l) e =
    own_policy-apply_all l (Endpoint.apply (Endpoint.with_header h) e)
own_policy-apply_all (Endpoint.with_id i ∷ l) e =
    own_policy-apply_all l (Endpoint.apply (Endpoint.with_id i) e)
own_policy-apply_all (Endpoint.with_payload b ∷ l) e =
    own_policy-apply_all l (Endpoint.apply (Endpoint.with_payload b) e)
own_policy-apply_all (Endpoint.with_read_fast ∷ l) e =
    own_policy-apply_all l (Endpoint.apply Endpoint.with_read_fast e)
own_policy-apply_all (Endpoint.with_tls_skip_verify ∷ l) e =
    own_policy-apply_all l (Endpoint.apply Endpoint.with_tls_skip_verify e)

policy-with_default :
    {U : Type 0} (d : DnsPolicy) (e : HttpEndpoint)
    → with_default {U = U} d (http_task e)
      ≡ http_task (record e { dns_policy = or_zero_policy (own_policy e) d; dns_policy_set = true })
unfolding with_default
policy-with_default d e = ground arith

-- Of an endpoint made with any options, to which the default policy of a `Wadjit` is then applied: its
-- policy is that of the last `WithDNSPolicy`, and the default if there is none; nothing else changes.
pub new_http_endpoint-with_default :
    {U : Type 0} (zero_policy d : DnsPolicy) (xid : String) (url : Option HttpUrl) (method : String)
    (opts : List HttpEndpointOption)
    → with_default {U = U} d (http_task (new_http_endpoint zero_policy xid url method opts))
      ≡ http_task (record (new_http_endpoint zero_policy xid url method opts) {
        dns_policy = or_zero_policy (last_policy none opts) d;
        dns_policy_set = true;
      })
unfolding new_http_endpoint
new_http_endpoint-with_default zero_policy d xid url method opts =
    policy-with_default d _
    ∙ ap
        (λ p. http_task (record (new_http_endpoint zero_policy xid url method opts) {
          dns_policy = or_zero_policy p d;
          dns_policy_set = true;
        }))
        (own_policy-apply_all opts _)
