-- ===== src/Dns/Lookup/NonEmpty.antt =====
-- A lookup that reports no error has an address, so that its callers may take the first.
use wadjit.Prelude.{String, ◌≡◌, true, none, Option, some, arith, non_empty}
use wadjit.Dns.Manager.{DnsPolicyManager}
use wadjit.Dns.Policy.{TtlResolver}
use wadjit.Dns.Lookup.{Wait, flight, ctx_done, ask, lookup_with, lookup}

ask-non_empty :
    (w : Wait) (host : String) (r : TtlResolver)
    → (ask w host r).err ≡ none
    → non_empty (ask w host r).addrs ≡ true
unfolding ask
ask-non_empty (flight moment dur) host r h = ground arith
ask-non_empty (ctx_done e) host r h = ground arith

lookup_with-non_empty :
    (w : Wait) (host : String) (o : Option TtlResolver)
    → (lookup_with w host o).err ≡ none
    → non_empty (lookup_with w host o).addrs ≡ true
unfolding lookup_with
lookup_with-non_empty w host none h = cc
lookup_with-non_empty w host (some r) h = ask-non_empty w host r h

pub lookup-non_empty :
    (w : Wait) (host : String) (m : DnsPolicyManager)
    → (lookup w host m).err ≡ none
    → non_empty (lookup w host m).addrs ≡ true
unfolding lookup
lookup-non_empty w host m h = lookup_with-non_empty w host m.resolver h
