-- ===== src/Edit/Chain.antt =====
-- The IPv4 edits in the order of `tcpedit_packet` of src/tcpedit/tcpedit.c: type of service, TTL,
-- ports, addresses, and random addresses. Fuzzing, sequence numbers, padding and truncation are off.
pub mod Ports
pub mod Laws
use tcpreplay.Prelude.{ℕ, Bool, true, false, List, [], ◌∷◌, Option, none, some, ◌==◌, if◌then◌else◌}
use tcpreplay.Portmap.{Entry}
use tcpreplay.Portmap.Rewrite.{Code, ok, Header, Ipv4, rewrite_ipv4_ports}
use tcpreplay.Edit.{Tcpedit, Ipv4Hdr, rewrite_ipv4_ttl}
use tcpreplay.Edit.Map.{Direction, then_some, rewrite_ipv4l3}
use tcpreplay.Edit.Header.{set_tos, randomize_ipv4}

-- An IPv4 header and the ports behind it; the checksum behind it is in the header's `l4_sum`.
pub record Datagram : Type 0 where
  pub ip : Ipv4Hdr
  pub sport : ℕ
  pub dport : ℕ

abbrev pub l4_header : Datagram → Header
l4_header d = record { sport = d.sport; dport = d.dport; sum = d.ip.l4_sum }

abbrev pub with_l4_header : Datagram → Header → Datagram
with_l4_header d l4 = record {
  ip = record d.ip { l4_sum = l4.sum };
  sport = l4.sport;
  dport = l4.dport;
}

-- With no port map the ports are left.
unfoldable pub ports_step : List Entry → ℕ → Datagram → Datagram
ports_step [] len d = d
ports_step (e ∷ es) len d =
    with_l4_header d
      (rewrite_ipv4_ports (e ∷ es) (some (record { ip_hl = d.ip.ip_hl; ip_p = d.ip.ip_p })) len
        (l4_header d)).1

unfoldable pub address_step : Tcpedit → Direction → ℕ → Ipv4Hdr → Option Ipv4Hdr
address_step t direction len h = if t.rewrite_ip then rewrite_ipv4l3 t h direction len else some h

unfoldable pub random_step : Tcpedit → ℕ → Ipv4Hdr → Option (Code × Ipv4Hdr)
random_step t len h = if t.seed == 0 then some (ok, h) else randomize_ipv4 t h len

-- `ports` is `tcpedit->portmap`. The code `error` ends the edit of the packet.
unfoldable pub edit_ipv4 :
    Tcpedit → List Entry → Direction → ℕ → Datagram → Option (Code × Datagram)
edit_ipv4 t ports direction len d =
    let h = (rewrite_ipv4_ttl t (set_tos t d.ip)).1 in
    let moved = ports_step ports len (record d { ip = h }) in
    then_some (address_step t direction len moved.ip)
      (λ g. then_some (random_step t len g) (λ (code, f). some (code, record moved { ip = f })))
