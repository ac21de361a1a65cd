-- ===== src/Response/Text.antt =====
-- `String` of the metadata of a response (response.go).
use Prim.Native.String.{◌++◌}
use wadjit.Prelude.{String, Bool, Option, none, some, List, [], ◌∷◌, map, ℤ, pos, if◌then◌else◌}
use wadjit.Clock.{Time, Duration}
use wadjit.Header.{HttpHeader, header_lines}
use wadjit.Dns.Address.{Addr}
use wadjit.Dns.Policy.{
  DnsRefreshMode, default_mode, static_mode, single_lookup, ttl_mode, cadence_mode, other,
}
use wadjit.Response.{DnsMetadata, TaskResponseMetadata}

-- What the standard library writes for a number, a duration, a time and an address.
pub record Formats : Type 0 where
  pub decimal : ℤ → String
  pub duration : Duration → String
  pub time : Time → String
  pub addr : Addr → String

-- `strings.Join(parts, ", ")`
commas : List String → String
commas [] = ""
commas (s ∷ []) = s
commas (s ∷ t ∷ l) = s ++ ", " ++ commas (t ∷ l)

line_text : String × String → String
line_text (key, value) = key ++ ": " ++ value

headers_text : Option HttpHeader → String
unfolding commas line_text header_lines
headers_text none = "{}"
headers_text (some h) = "{" ++ commas (map line_text (header_lines h)) ++ "}"

-- The value of a mode.
mode_value : DnsRefreshMode → ℤ
mode_value default_mode = pos 0
mode_value static_mode = pos 1
mode_value single_lookup = pos 2
mode_value ttl_mode = pos 3
mode_value cadence_mode = pos 4
mode_value (other n) = pos n

-- `%t`
bool_text : Bool → String
bool_text b = if b then "true" else "false"

dns_text : Formats → Option DnsMetadata → String
unfolding commas mode_value bool_text
dns_text f none = "<nil>"
dns_text f (some d) =
    "{Mode: "
    ++ f.decimal (mode_value d.mode)
    ++ ", TTL: "
    ++ f.duration d.ttl
    ++ ", ExpiresAt: "
    ++ f.time d.expires_at
    ++ ", Addrs: ["
    ++ commas (map f.addr d.resolved_addrs)
    ++ "], GuardRail: "
    ++ bool_text d.guard_rail_triggered
    ++ "}"

unfoldable pub metadata_text : Formats → TaskResponseMetadata → String
unfolding headers_text dns_text
metadata_text f m =
    "TaskResponseMetadata{StatusCode: "
    ++ f.decimal m.status_code
    ++ ", Headers: "
    ++ headers_text m.headers
    ++ ", Size: "
    ++ f.decimal m.size
    ++ ", Latency: "
    ++ f.duration m.time_data.latency
    ++ ", TimeSent: "
    ++ f.time m.time_data.sent_at
    ++ ", TimeReceived: "
    ++ f.time m.time_data.received_at
    ++ ", DNS: "
    ++ dns_text f m.dns
    ++ "}"
