-- ===== src/Portmap/Rewrite.antt =====
-- `rewrite_ports` and `rewrite_ipv4_ports` of src/tcpedit/portmap.c, on the fields of the headers.
pub mod Laws
use tcpreplay.Prelude.{
  ℕ, ◌+◌, ◌-◌, ◌*◌, ◌%◌, ◌^◌, Bool, true, false, List, Option, none, some, ltb, ◌==◌, ◌||◌,
  if◌then◌else◌, u16,
}
use tcpreplay.Checksum.{csum_replace2}
use tcpreplay.Portmap.{Entry, map_port}

-- The ports and the checksum of a TCP or UDP header, in network byte order.
pub record Header : Type 0 where
  pub sport : ℕ
  pub dport : ℕ
  pub sum : ℕ

-- `TCPEDIT_OK`, `TCPEDIT_WARN`, `TCPEDIT_ERROR`
pub data Code : Type 0 where
  ok warn error : Code

abbrev pub proto_tcp : ℕ
proto_tcp = 6

abbrev pub proto_udp : ℕ
proto_udp = 17

-- `newport`, a `uint16_t`
abbrev pub new_port : List Entry → ℕ → ℕ
new_port es port = u16 (map_port es port)

unfoldable pub tcp_dport : List Entry → Header → Header
tcp_dport es h =
    let newport = new_port es h.dport in
    if newport == h.dport
    then h
    else record h { dport = newport; sum = csum_replace2 h.sum h.dport newport }

unfoldable pub tcp_sport : List Entry → Header → Header
tcp_sport es h =
    let newport = new_port es h.sport in
    if newport == h.sport
    then h
    else record h { sport = newport; sum = csum_replace2 h.sum h.sport newport }

-- A UDP checksum of 0 stands for none, and is left.
unfoldable pub udp_dport : List Entry → Header → Header
udp_dport es h =
    let newport = new_port es h.dport in
    if newport == h.dport then h else record h {
      dport = newport;
      sum = if h.sum == 0 then h.sum else csum_replace2 h.sum h.dport newport;
    }

unfoldable pub udp_sport : List Entry → Header → Header
udp_sport es h =
    let newport = new_port es h.sport in
    if newport == h.sport then h else record h {
      sport = newport;
      sum = if h.sum == 0 then h.sum else csum_replace2 h.sum h.sport newport;
    }

unfoldable pub rewrite_ports : List Entry → ℕ → Header → ℕ → Code × Header
rewrite_ports es protocol h l4len =
    if protocol == proto_tcp
    then (if ltb l4len 20 then (warn, h) else (ok, tcp_sport es (tcp_dport es h)))
    else if protocol == proto_udp
    then (if ltb l4len 8 then (warn, h) else (ok, udp_sport es (udp_dport es h)))
    else (ok, h)

-- The fields of an IPv4 header that are read here.
pub record Ipv4 : Type 0 where
  pub ip_hl : ℕ
  pub ip_p : ℕ

-- `get_layer4_v4`: the offset of the layer 4 header, unless it lies behind the end.
unfoldable pub get_layer4_v4 : Ipv4 → ℕ → Option ℕ
get_layer4_v4 ip end = if ltb end (ip.ip_hl * 4) then none else some (ip.ip_hl * 4)

abbrev pub at_layer4 : List Entry → ℕ → Header → ℕ → Option ℕ → Code × Header
at_layer4 es protocol h l3len none = (warn, h)
at_layer4 es protocol h l3len (some l4) = rewrite_ports es protocol h (l3len - l4)

-- `none` is a missing IP header. The last argument is the header that lies at layer 4.
unfoldable pub rewrite_ipv4_ports : List Entry → Option Ipv4 → ℕ → Header → Code × Header
rewrite_ipv4_ports es none l3len h = (error, h)
rewrite_ipv4_ports es (some ip) l3len h =
    if ip.ip_p == proto_tcp || ip.ip_p == proto_udp
    then at_layer4 es ip.ip_p h l3len (get_layer4_v4 ip l3len)
    else (ok, h)
