-- ===== src/Dns/Request/Total.antt =====
-- No request makes the manager panic.
use wadjit.Prelude.{◌≢◌, arith}
use wadjit.Run.{panics}
use wadjit.Dns.Manager.{DnsPolicyManager, RequestContext}
use wadjit.Dns.Resolve.{Moments}
use wadjit.Dns.Resolve.Total.{resolve-ne-panics}
use wadjit.Dns.Request.{RequestUrl, port_of, prepare_request, round_trip}

prepare_request-ne-panics :
    (t : Moments) (ctx : RequestContext) (u : RequestUrl) (m : DnsPolicyManager)
    → prepare_request t ctx u m ≢ panics
unfolding prepare_request
prepare_request-ne-panics t ctx u m = ground (arith, resolve-ne-panics t u.hostname (port_of u) m)

-- Whatever the policy, the cache, the URL, the clock and the lookup's result, the transport's
-- `RoundTrip` does not panic on the way to the request that it sends or the error that it returns.
pub round_trip-ne-panics :
    (t : Moments) (ctx : RequestContext) (u : RequestUrl) (m : DnsPolicyManager)
    → round_trip t ctx u m ≢ panics
unfolding round_trip
round_trip-ne-panics t ctx u m = ground (arith, prepare_request-ne-panics t ctx u m)
