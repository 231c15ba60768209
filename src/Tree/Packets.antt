-- ===== src/Tree/Packets.antt =====
-- `packet2tree` of src/tree.c: the sender of a packet and its role, by the bytes of the packet.
pub mod Laws
use tcpreplay.Prelude.{
  ℕ, zero, suc, ◌+◌, ◌*◌, ◌/◌, ◌%◌, ◌^◌, Bool, true, false, List, [], ◌∷◌, Option, none, some, ltb,
  leb, ◌==◌, ◌&&◌, if◌then◌else◌, length,
}
use tcpreplay.Cidr.{af_inet, af_inet6}
use tcpreplay.Packet.{Walk, value, then_with, byte_of, be16_at}
use tcpreplay.L2.{Layer2, ethertype_ip, ethertype_ip6, get_l2len_protocol}
use tcpreplay.Tree.{Role, dir_client, dir_server, Node, new_tree}

-- A field that is copied, as a little-endian host loads it.
unfoldable pub le16_at : List ℕ → ℕ → Walk ℕ
le16_at packet i =
    then_with (byte_of packet i)
      (λ a. then_with (byte_of packet (i + 1)) (λ b. value (a + b * 256)))

unfoldable pub le32_at : List ℕ → ℕ → Walk ℕ
le32_at packet i =
    then_with (le16_at packet i)
      (λ a. then_with (le16_at packet (i + 2)) (λ b. value (a + b * 65536)))

-- So many bytes from an offset on.
unfoldable pub bytes_at : ℕ → List ℕ → ℕ → Walk (List ℕ)
bytes_at zero packet i = value []
bytes_at (suc n) packet i =
    then_with (byte_of packet i) (λ a. then_with (bytes_at n packet (i + 1)) (λ bs. value (a ∷ bs)))

abbrev pub in_role : Role → Node → Walk (Option Node)
in_role r node = value (some (record node { role = r }))

-- Data from the port 20 is left out, by a test in network byte order.
unfoldable pub by_tcp : List ℕ → ℕ → Node → Walk (Option Node)
by_tcp packet l4 node =
    if ltb (length packet) (l4 + 20)
    then value none
    else then_with (le16_at packet l4) (λ sport. then_with (byte_of packet (l4 + 13)) (λ flags.
      if sport == 20
      then value (some node)
      else if flags == 0x02
      then in_role dir_client node
      else if flags == 0x12
      then in_role dir_server node
      else value (some node)))

-- The flags of a DNS header of 12 bytes, behind the length that `dnsv4_hdr_t` starts with.
abbrev pub by_dns : List ℕ → ℕ → Node → (ℕ → Bool) → Walk (Option Node)
by_dns packet l4 node is_response =
    if ltb (length packet) (l4 + 8 + 12)
    then value none
    else then_with (le16_at packet (l4 + 8 + 4))
        (λ flags. if is_response flags then in_role dir_server node else in_role dir_client node)

-- `flags & DNS_QUERY_FLAG`, and `(flags & 0x7FFFF) ^ DNS_QUERY_FLAG` of 16 bits.
abbrev pub response_bit : ℕ → Bool
response_bit flags = flags / 2 ^ 15 == 1

abbrev pub not_only_bit : ℕ → Bool
not_only_bit flags = if flags == 0x8000 then false else true

unfoldable pub by_udp : List ℕ → ℕ → Node → Walk (Option Node)
by_udp packet l4 node =
    if ltb (length packet) (l4 + 8)
    then value none
    else then_with (be16_at packet (l4 + 2)) (λ dport. then_with (be16_at packet l4) (λ sport.
      if dport == 53
      then by_dns packet l4 node response_bit
      else if sport == 53
      then by_dns packet l4 node not_only_bit
      else value (some node)))

-- An unreachable port makes its sender a server.
unfoldable pub by_icmp : List ℕ → ℕ → Node → Walk (Option Node)
by_icmp packet l4 node =
    if ltb (length packet) (l4 + 4)
    then value none
    else then_with (byte_of packet l4) (λ type.
      then_with (byte_of packet (l4 + 1))
        (λ code. if type == 3 && code == 3 then in_role dir_server node else value (some node)))

unfoldable pub by_proto : List ℕ → ℕ → ℕ → Node → Walk (Option Node)
by_proto packet proto l4 node =
    if proto == 6
    then by_tcp packet l4 node
    else if proto == 17
    then by_udp packet l4 node
    else if proto == 1
    then by_icmp packet l4 node
    else value (some node)

unfoldable pub from_ipv4 : List ℕ → ℕ → Walk (Option Node)
from_ipv4 packet l3 =
    if ltb (length packet) (l3 + 20)
    then value none
    else then_with (byte_of packet l3) (λ first. then_with (byte_of packet (l3 + 9)) (λ proto.
      then_with (le32_at packet (l3 + 12)) (λ src.
        by_proto packet proto (l3 + first % 16 * 4)
          (record new_tree { family = af_inet; ip = src }))))

unfoldable pub from_ipv6 : List ℕ → ℕ → Walk (Option Node)
from_ipv6 packet l3 =
    if ltb (length packet) (l3 + 40)
    then value none
    else then_with (byte_of packet (l3 + 6)) (λ proto.
      then_with (bytes_at 16 packet (l3 + 8))
        (λ src. by_proto packet proto (l3 + 40) (record new_tree { family = af_inet6; ip6 = src })))

unfoldable pub from_layer2 : List ℕ → Option Layer2 → Walk (Option Node)
from_layer2 packet none = value none
from_layer2 packet (some s) =
    if s.protocol == ethertype_ip
    then from_ipv4 packet s.l2len
    else if s.protocol == ethertype_ip6
    then from_ipv6 packet s.l2len
    else value (some new_tree)

-- `none` is the exit on a packet that is too short.
unfoldable pub packet2tree : List ℕ → ℕ → Walk (Option Node)
packet2tree packet datalink = then_with (get_l2len_protocol packet datalink) (from_layer2 packet)
