-- ===== src/Portmap/Rewrite/Laws.antt =====
-- Ports are rewritten by the map, and the checksum stays right.
use tcpreplay.Prelude.{ℕ, ◌+◌, ◌%◌, ◌^◌, ◌≤◌, ◌<◌, ◌≡◌, ◌⊎◌, arith, List}
use tcpreplay.Checksum.Replace.{csum_replace2-keeps_sum}
use tcpreplay.Portmap.{Entry}
use tcpreplay.Portmap.Rewrite.{
  Header, ok, proto_tcp, proto_udp, new_port, tcp_dport, tcp_sport, udp_dport, udp_sport,
  rewrite_ports,
}

abbrev pub IsHeader : Header → Type 0
IsHeader h = (h.sport < 2 ^ 16) × (h.dport < 2 ^ 16) × (h.sum < 2 ^ 16)

-- With the sum of all other words of the segment and the pseudo header, the checksum is right.
abbrev pub Verifies : ℕ → Header → Type 0
Verifies rest h = (rest + h.sport + h.dport + h.sum) % 65535 ≡ 0

-- What a header becomes: its ports by the map, and a right checksum.
abbrev pub Mapped : List Entry → Header → Header → Type 0
Mapped es h h' = (h'.sport ≡ new_port es h.sport) × (h'.dport ≡ new_port es h.dport)

tcp_dport_lem :
    (es : List Entry) (rest : ℕ) (h : Header)
    → IsHeader h
    → Verifies rest h
    → ((tcp_dport es h).dport ≡ new_port es h.dport)
      × ((tcp_dport es h).sport ≡ h.sport)
      × IsHeader (tcp_dport es h)
      × Verifies rest (tcp_dport es h)
unfolding tcp_dport
tcp_dport_lem es rest h v c =
    ground (arith, csum_replace2-keeps_sum (rest + h.sport) h.sum h.dport (new_port es h.dport))

tcp_sport_lem :
    (es : List Entry) (rest : ℕ) (h : Header)
    → IsHeader h
    → Verifies rest h
    → ((tcp_sport es h).sport ≡ new_port es h.sport)
      × ((tcp_sport es h).dport ≡ h.dport)
      × IsHeader (tcp_sport es h)
      × Verifies rest (tcp_sport es h)
unfolding tcp_sport
tcp_sport_lem es rest h v c =
    ground (arith, csum_replace2-keeps_sum (rest + h.dport) h.sum h.sport (new_port es h.sport))

-- A TCP segment of at least 20 bytes whose checksum is right gets both ports by the map, and its new
-- checksum is right.
pub rewrite_ports_tcp :
    (es : List Entry) (rest l4len : ℕ) (h : Header)
    → 20 ≤ l4len
    → IsHeader h
    → Verifies rest h
    → let (code, h') = rewrite_ports es proto_tcp h l4len in
      (code ≡ ok) × Mapped es h h' × IsHeader h' × Verifies rest h'
unfolding rewrite_ports
rewrite_ports_tcp es rest l4len h long v c =
    let d = tcp_dport_lem es rest h v c in
    let s = tcp_sport_lem es rest (tcp_dport es h) d.2 d.3 in ground (arith, d, s)

-- No checksum, or a right one.
abbrev pub VerifiesOrNone : ℕ → Header → Type 0
VerifiesOrNone rest h = (h.sum ≡ 0) ⊎ Verifies rest h

udp_dport_lem :
    (es : List Entry) (rest : ℕ) (h : Header)
    → IsHeader h
    → VerifiesOrNone rest h
    → ((udp_dport es h).dport ≡ new_port es h.dport)
      × ((udp_dport es h).sport ≡ h.sport)
      × IsHeader (udp_dport es h)
      × VerifiesOrNone rest (udp_dport es h)
unfolding udp_dport
udp_dport_lem es rest h v c =
    ground (arith, csum_replace2-keeps_sum (rest + h.sport) h.sum h.dport (new_port es h.dport))

udp_sport_lem :
    (es : List Entry) (rest : ℕ) (h : Header)
    → IsHeader h
    → VerifiesOrNone rest h
    → ((udp_sport es h).sport ≡ new_port es h.sport)
      × ((udp_sport es h).dport ≡ h.dport)
      × IsHeader (udp_sport es h)
      × VerifiesOrNone rest (udp_sport es h)
unfolding udp_sport
udp_sport_lem es rest h v c =
    ground (arith, csum_replace2-keeps_sum (rest + h.dport) h.sum h.sport (new_port es h.sport))

-- A UDP datagram of at least 8 bytes whose checksum is right or 0 gets both ports by the map, and
-- its new checksum is right or 0.
pub rewrite_ports_udp :
    (es : List Entry) (rest l4len : ℕ) (h : Header)
    → 8 ≤ l4len
    → IsHeader h
    → VerifiesOrNone rest h
    → let (code, h') = rewrite_ports es proto_udp h l4len in
      (code ≡ ok) × Mapped es h h' × IsHeader h' × VerifiesOrNone rest h'
unfolding rewrite_ports
rewrite_ports_udp es rest l4len h long v c =
    let d = udp_dport_lem es rest h v c in
    let s = udp_sport_lem es rest (udp_dport es h) d.2 d.3 in ground (arith, d, s)
