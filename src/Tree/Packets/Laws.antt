-- ===== src/Tree/Packets/Laws.antt =====
-- `packet2tree` reads only inside the packet, and what it makes is not counted yet.
use tcpreplay.Prelude.{
  ℕ, zero, suc, ◌+◌, ◌*◌, ◌%◌, ◌≤◌, refl, arith, Bool, List, [], ◌∷◌, Option, none, some, ◌==◌,
  ◌&&◌, length,
}
use tcpreplay.Cidr.{af_inet, af_inet6}
use tcpreplay.Packet.Laws.{Ends, AnyNumber, ends_bind, ends_room, ends_if, ends_byte, ends_be16}
use tcpreplay.L2.{Layer2, ethertype_ip, ethertype_ip6}
use tcpreplay.L2.Bounds.{IsInside, get_l2len_protocol_lem}
use tcpreplay.Tree.{dir_client, dir_server, Node, new_tree}
use tcpreplay.Tree.Counts.{IsFresh}
use tcpreplay.Tree.Packets.{
  le16_at, le32_at, bytes_at, by_tcp, by_dns, response_bit, not_only_bit, by_udp, by_icmp, by_proto,
  from_ipv4, from_ipv6, from_layer2, packet2tree,
}

-- No node, or one that is not counted.
abbrev pub IsUncounted : Option Node → Type 0
IsUncounted none = Unit {0}
IsUncounted (some n) = IsFresh n

ends_le16 : (packet : List ℕ) (i : ℕ) → i + 2 ≤ length packet → Ends AnyNumber (le16_at packet i)
unfolding le16_at
ends_le16 packet i h = ends_bind AnyNumber AnyNumber _ _ (ends_byte packet i (omega arith)) (λ a q.
    ends_bind AnyNumber AnyNumber _ _ (ends_byte packet (i + 1) (omega arith))
      (λ b r. (a + b * 256, refl, tt)))

pub ends_le32 :
    (packet : List ℕ) (i : ℕ) → i + 4 ≤ length packet → Ends AnyNumber (le32_at packet i)
unfolding le32_at
ends_le32 packet i h = ends_bind AnyNumber AnyNumber _ _ (ends_le16 packet i (omega arith)) (λ a q.
    ends_bind AnyNumber AnyNumber _ _ (ends_le16 packet (i + 2) (omega arith))
      (λ b r. (a + b * 65536, refl, tt)))

abbrev pub AnyBytes : List ℕ → Type 0
AnyBytes bs = Unit {0}

pub ends_bytes :
    (n : ℕ) (packet : List ℕ) (i : ℕ) → i + n ≤ length packet → Ends AnyBytes (bytes_at n packet i)
unfolding bytes_at
ends_bytes zero packet i h = ([], refl, tt)
ends_bytes (suc n) packet i h =
    ends_bind AnyNumber AnyBytes _ _ (ends_byte packet i (omega arith)) (λ a q.
      ends_bind AnyBytes AnyBytes _ _ (ends_bytes n packet (i + 1) (omega arith))
        (λ bs r. (a ∷ bs, refl, tt)))

module _ (packet : List ℕ) (l4 : ℕ) (node : Node) (fresh : IsFresh node) where
  tcp_ends : Ends IsUncounted (by_tcp packet l4 node)
  unfolding by_tcp
  tcp_ends =
      ends_room IsUncounted (length packet) (l4 + 20) _ _ (none, refl, tt)
        (λ room. ends_bind AnyNumber IsUncounted _ _ (ends_le16 packet l4 (omega arith)) (λ sport q.
          ends_bind AnyNumber IsUncounted _ _ (ends_byte packet (l4 + 13) (omega arith)) (λ flags r.
            ends_if IsUncounted (sport == 20) _ _ (λ t. (some node, refl, fresh))
              (λ f.
                ends_if IsUncounted (flags == 0x02) _ _
                  (λ t. (some (record node { role = dir_client }), refl, fresh))
                  (λ g.
                    ends_if IsUncounted (flags == 0x12) _ _
                      (λ t. (some (record node { role = dir_server }), refl, fresh))
                      (λ k. (some node, refl, fresh)))))))

  dns_ends : (is_response : ℕ → Bool) → Ends IsUncounted (by_dns packet l4 node is_response)
  dns_ends is_response =
      ends_room IsUncounted (length packet) (l4 + 8 + 12) _ _ (none, refl, tt)
        (λ room.
          ends_bind AnyNumber IsUncounted (le16_at packet (l4 + 8 + 4)) _
            (ends_le16 packet (l4 + 8 + 4) (omega arith))
            (λ flags q.
              ends_if IsUncounted (is_response flags) _ _
                (λ t. (some (record node { role = dir_server }), refl, fresh))
                (λ f. (some (record node { role = dir_client }), refl, fresh))))

  udp_ends : Ends IsUncounted (by_udp packet l4 node)
  unfolding by_udp
  udp_ends =
      ends_room IsUncounted (length packet) (l4 + 8) _ _ (none, refl, tt)
        (λ room.
          ends_bind AnyNumber IsUncounted _ _ (ends_be16 packet (l4 + 2) (omega arith)) (λ dport q.
            ends_bind AnyNumber IsUncounted _ _ (ends_be16 packet l4 (omega arith)) (λ sport r.
              ends_if IsUncounted (dport == 53) _ _ (λ t. dns_ends response_bit)
                (λ f.
                  ends_if IsUncounted (sport == 53) _ _ (λ t. dns_ends not_only_bit)
                    (λ g. (some node, refl, fresh))))))

  icmp_ends : Ends IsUncounted (by_icmp packet l4 node)
  unfolding by_icmp
  icmp_ends =
      ends_room IsUncounted (length packet) (l4 + 4) _ _ (none, refl, tt)
        (λ room. ends_bind AnyNumber IsUncounted _ _ (ends_byte packet l4 (omega arith)) (λ type q.
          ends_bind AnyNumber IsUncounted _ _ (ends_byte packet (l4 + 1) (omega arith)) (λ code r.
            ends_if IsUncounted (type == 3 && code == 3) _ _
              (λ t. (some (record node { role = dir_server }), refl, fresh))
              (λ f. (some node, refl, fresh)))))

  proto_ends : (proto : ℕ) → Ends IsUncounted (by_proto packet proto l4 node)
  unfolding by_proto
  proto_ends proto =
      ends_if IsUncounted (proto == 6) _ _ (λ t. tcp_ends)
        (λ f.
          ends_if IsUncounted (proto == 17) _ _ (λ t. udp_ends)
            (λ g.
              ends_if IsUncounted (proto == 1) _ _ (λ t. icmp_ends)
                (λ k. (some node, refl, fresh))))

from_ipv4_ends : (packet : List ℕ) (l3 : ℕ) → Ends IsUncounted (from_ipv4 packet l3)
unfolding from_ipv4
from_ipv4_ends packet l3 =
    ends_room IsUncounted (length packet) (l3 + 20) _ _ (none, refl, tt)
      (λ room. ends_bind AnyNumber IsUncounted _ _ (ends_byte packet l3 (omega arith)) (λ first q.
        ends_bind AnyNumber IsUncounted _ _ (ends_byte packet (l3 + 9) (omega arith)) (λ proto r.
          ends_bind AnyNumber IsUncounted _ _ (ends_le32 packet (l3 + 12) (omega arith)) (λ src u.
            proto_ends packet (l3 + first % 16 * 4) (record new_tree { family = af_inet; ip = src })
              (refl, refl) proto))))

from_ipv6_ends : (packet : List ℕ) (l3 : ℕ) → Ends IsUncounted (from_ipv6 packet l3)
unfolding from_ipv6
from_ipv6_ends packet l3 =
    ends_room IsUncounted (length packet) (l3 + 40) _ _ (none, refl, tt)
      (λ room.
        ends_bind AnyNumber IsUncounted _ _ (ends_byte packet (l3 + 6) (omega arith)) (λ proto r.
          ends_bind AnyBytes IsUncounted _ _ (ends_bytes 16 packet (l3 + 8) (omega arith)) (λ src u.
            proto_ends packet (l3 + 40) (record new_tree { family = af_inet6; ip6 = src })
              (refl, refl) proto)))

-- For every packet and link type `packet2tree` ends, reads no byte behind the packet, and exits or
-- makes a node whose counts are 0.
pub packet2tree_lem :
    (packet : List ℕ) (datalink : ℕ) → Ends IsUncounted (packet2tree packet datalink)
unfolding packet2tree from_layer2
packet2tree_lem packet datalink =
    ends_bind (IsInside packet) IsUncounted _ (from_layer2 packet)
      (get_l2len_protocol_lem packet datalink) found
  where
    found : (o : Option Layer2) → IsInside packet o → Ends IsUncounted (from_layer2 packet o)
    found none u = (none, refl, tt)
    found (some s) u =
        ends_if IsUncounted (s.protocol == ethertype_ip) _ _ (λ t. from_ipv4_ends packet s.l2len)
          (λ f.
            ends_if IsUncounted (s.protocol == ethertype_ip6) _ _
              (λ t. from_ipv6_ends packet s.l2len) (λ g. (some new_tree, refl, (refl, refl))))
