-- ===== src/Dns/Address.antt =====
-- `netip.Addr` and `netip.AddrPort`, and the targets of a dial. A text that is made of an address
-- and a port is kept as these two.
use wadjit.Prelude.{ℕ, String, Bool, true, false, ◌&&◌, List, ◌==◌}

-- `unset` is `netip.Addr{}`; the others hold the bytes of the address.
pub data Addr : Type 0 where
  unset : Addr
  v4 : List ℕ → Addr
  v6 : List ℕ → Addr

pub record AddrPort : Type 0 where
  pub addr : Addr
  pub port : ℕ

abbrev pub is_unset : Addr → Bool
is_unset unset = true
is_unset (v4 bytes) = false
is_unset (v6 bytes) = false

-- `p == netip.AddrPort{}`
unfoldable pub is_empty : AddrPort → Bool
is_empty p = is_unset p.addr && p.port == 0

-- The address that a dial is given: `no_target` is the empty string, `host_port` the result of
-- `net.JoinHostPort(addr.String(), port)`, `addr_port` that of `AddrPort.String()`, and `as_given`
-- the address that the transport derived from the URL.
pub data Target : Type 0 where
  no_target : Target
  host_port : Addr → String → Target
  addr_port : AddrPort → Target
  as_given : String → Target

-- `target != ""`
abbrev pub has_target : Target → Bool
has_target no_target = false
has_target (host_port a p) = true
has_target (addr_port a) = true
has_target (as_given s) = true
