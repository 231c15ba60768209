-- ===== src/Ipv6/Rewrite.antt =====
-- `rewrite_ipv6_ports` of src/tcpedit/portmap.c and `rewrite_ipv6_tcp_sequence` of
-- src/tcpedit/rewrite_sequence.c. The packet is its `l3len` bytes from the IPv6 header on.
pub mod Words
pub mod Ports
use tcpreplay.Prelude.{
  ℕ, zero, suc, ◌+◌, ◌-◌, ◌/◌, ◌%◌, ◌^◌, ◌≤◌, ◌≡◌, ◌⊎◌, inl, inr, refl, arith, ltb, List, [],
  Option, none, some, ◌==◌, ◌||◌, if◌then◌else◌, length, le→ltb,
}
use tcpreplay.Packet.{Walk, value, then_with, byte_of}
use tcpreplay.Ipv6.{kind_of, layer4_loop, layer4_turn, land, enter, get_layer4_v6}
use tcpreplay.Portmap.{Entry}
use tcpreplay.Tree.Packets.{le16_at, le32_at}
use tcpreplay.FullChecksum.{put16}
use tcpreplay.Portmap.Rewrite.{Header, Code, ok, warn, error, proto_tcp, proto_udp, rewrite_ports}
use tcpreplay.Sequence.{Tcp, rewrite_seqs}

abbrev pub layer4_of : List ℕ → Walk (Option ℕ)
layer4_of packet = get_layer4_v6 (length packet + 2) packet 0

-- Where the checksum stands in a TCP header, and else in a UDP header, and how long the header is.
abbrev pub sum_at : ℕ → ℕ
sum_at protocol = if protocol == proto_tcp then 16 else 6

abbrev pub header_len : ℕ → ℕ
header_len protocol = if protocol == proto_tcp then 20 else 8

-- The fields of the header at `l4`, and a store of them.
unfoldable pub read_header : List ℕ → ℕ → ℕ → Walk Header
read_header packet l4 at = then_with (le16_at packet l4) (λ sport.
    then_with (le16_at packet (l4 + 2)) (λ dport.
      then_with (le16_at packet (l4 + at))
        (λ sum. value (record { sport = sport; dport = dport; sum = sum }))))

unfoldable pub write_header : List ℕ → ℕ → ℕ → Header → List ℕ
write_header packet l4 at h =
    put16 (put16 (put16 packet l4 h.sport) (l4 + 2) h.dport) (l4 + at) h.sum

-- `rewrite_ports` on the header at `l4`: one that is too short is not read.
unfoldable pub ports_at : List Entry → List ℕ → ℕ → Option ℕ → Walk (Code × List ℕ)
ports_at es packet protocol none = value (warn, packet)
ports_at es packet protocol (some l4) =
    if ltb (length packet - l4) (header_len protocol)
    then value (warn, packet)
    else then_with (read_header packet l4 (sum_at protocol)) (λ h.
      let r = rewrite_ports es protocol h (length packet - l4) in
      value (r.0, write_header packet l4 (sum_at protocol) r.1))

-- The test of `ip_nh`.
abbrev pub ports_by : List Entry → List ℕ → ℕ → Walk (Code × List ℕ)
ports_by es packet ip_nh =
    if ip_nh == proto_tcp || ip_nh == proto_udp
    then then_with (layer4_of packet) (ports_at es packet ip_nh)
    else value (ok, packet)

-- `none` is a missing header.
unfoldable pub rewrite_ipv6_ports : List Entry → Option (List ℕ) → Walk (Code × List ℕ)
rewrite_ipv6_ports es none = value (error, [])
rewrite_ipv6_ports es (some packet) = then_with (byte_of packet 6) (ports_by es packet)

-- The fields of the TCP header at `l4` that are used, and a store of those that may change.
unfoldable pub read_tcp : List ℕ → ℕ → Walk Tcp
read_tcp packet l4 = then_with (le32_at packet (l4 + 4)) (λ seq.
    then_with (le32_at packet (l4 + 8)) (λ ack. then_with (byte_of packet (l4 + 13)) (λ flags.
      then_with (le16_at packet (l4 + 16))
        (λ sum. value (record { th_seq = seq; th_ack = ack; th_flags = flags; th_sum = sum })))))

abbrev pub put32 : List ℕ → ℕ → ℕ → List ℕ
put32 packet i v = put16 (put16 packet i (v % 2 ^ 16)) (i + 2) (v / 2 ^ 16)

unfoldable pub write_tcp : List ℕ → ℕ → Tcp → List ℕ
write_tcp packet l4 h =
    put16 (put32 (put32 packet (l4 + 4) h.th_seq) (l4 + 8) h.th_ack) (l4 + 16) h.th_sum

-- The code does not look whether the header is whole.
abbrev pub seqs_at : ℕ → List ℕ → Option ℕ → Walk (Code × List ℕ)
seqs_at adjust packet none = value (warn, packet)
seqs_at adjust packet (some l4) =
    then_with (read_tcp packet l4) (λ h. value (ok, write_tcp packet l4 (rewrite_seqs adjust h)))

abbrev pub seqs_by : ℕ → List ℕ → ℕ → Walk (Code × List ℕ)
seqs_by adjust packet ip_nh =
    if ip_nh == proto_tcp
    then then_with (layer4_of packet) (seqs_at adjust packet)
    else value (ok, packet)

unfoldable pub rewrite_ipv6_tcp_sequence : ℕ → List ℕ → Walk (Code × List ℕ)
rewrite_ipv6_tcp_sequence adjust packet = then_with (byte_of packet 6) (seqs_by adjust packet)

-- TCP or UDP straight behind the IPv6 header.
abbrev pub IsPorted : ℕ → Type 0
IsPorted ip_nh = (ip_nh ≡ proto_tcp) ⊎ (ip_nh ≡ proto_udp)

first_turn :
    (fuel : ℕ) (packet : List ℕ) (ip_nh next : ℕ)
    → 1 ≤ fuel
    → IsPorted ip_nh
    → layer4_loop fuel packet ip_nh ip_nh next ≡ value (some next)
unfolding layer4_loop layer4_turn kind_of land
first_turn zero packet ip_nh next f p = absurd (omega arith)
first_turn (suc fuel) packet ip_nh next f (inl e) = rw e refl
first_turn (suc fuel) packet ip_nh next f (inr e) = rw e refl

pub layer4_of_lem :
    (packet : List ℕ) (ip_nh : ℕ)
    → 40 ≤ length packet
    → byte_of packet 6 ≡ value ip_nh
    → IsPorted ip_nh
    → layer4_of packet ≡ value (some 40)
unfolding get_layer4_v6 enter
layer4_of_lem packet ip_nh h b p =
    rw (le→ltb (length packet) 40 h, b)
      (first_turn (length packet + 2) packet ip_nh 40 (omega arith) p)
