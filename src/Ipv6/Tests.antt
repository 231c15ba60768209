-- ===== src/Ipv6/Tests.antt =====
-- A packet with a hop-by-hop header in front of TCP, and one with a packet inside.
use tcpreplay.Prelude.{
  ℕ, ◌+◌, ◌≡◌, refl, inl, inr, arith, List, [], ◌∷◌, ◌++◌, some, none, length, replicate,
}
use tcpreplay.Packet.{value, byte_of}
use tcpreplay.Ipv6.{
  kind_of, get_ipv6_next, next_by, jump, if_fits, enter, land, layer4_turn, layer4_loop,
  get_layer4_v6, l4proto_turn, l4proto_loop, get_ipv6_l4proto,
}
use tcpreplay.Packet.Laws.{Ends}
use tcpreplay.Ipv6.Turns.{Lands}
use tcpreplay.Ipv6.Layer4.{get_layer4_v6_lem, get_layer4_v6_tunnel}
use tcpreplay.Ipv6.L4proto.{IsLast, get_ipv6_l4proto_lem}
use tcpreplay.Ipv6.Rewrite.{rewrite_ipv6_ports}
use tcpreplay.Ipv6.Rewrite.Ports.{IsRewritten, rewrite_ipv6_ports_lem}
use tcpreplay.Tree.Packets.{le16_at}
use tcpreplay.Portmap.{Entry}
use tcpreplay.Portmap.Rewrite.{ok}

-- A header of 40 bytes with this `ip_nh`.
abbrev header : ℕ → List ℕ
header ip_nh = 96 ∷ 0 ∷ 0 ∷ 0 ∷ 0 ∷ 0 ∷ ip_nh ∷ replicate 33 0

abbrev hop_by_hop : List ℕ
hop_by_hop = header 0 ++ (6 ∷ 0 ∷ 1 ∷ 4 ∷ 0 ∷ 0 ∷ 0 ∷ 0 ∷ 1 ∷ 2 ∷ 3 ∷ 4 ∷ [])

abbrev tunnelled : List ℕ
tunnelled = header 41 ++ (header 6 ++ (1 ∷ 2 ∷ 3 ∷ 4 ∷ []))

finds_tcp :
    (get_layer4_v6 54 hop_by_hop 0 ≡ value (some 48)) × (get_ipv6_l4proto 54 hop_by_hop 0 ≡ value 6)
unfolding get_layer4_v6 get_ipv6_l4proto layer4_turn layer4_loop l4proto_turn l4proto_loop kind_of
    byte_of get_ipv6_next next_by jump if_fits enter land
finds_tcp = (refl, refl)

get_layer4_v6_lem_example :
    Ends (Lands hop_by_hop (0 + 40)) (get_layer4_v6 (length hop_by_hop + 2) hop_by_hop 0)
get_layer4_v6_lem_example = get_layer4_v6_lem hop_by_hop 0

tunnelled_nh : byte_of tunnelled (0 + 6) ≡ value 41
unfolding byte_of
tunnelled_nh = refl

get_layer4_v6_tunnel_example : get_layer4_v6 (length tunnelled + 2) tunnelled 0 ≡ value none
get_layer4_v6_tunnel_example = get_layer4_v6_tunnel tunnelled 0 (omega arith) tunnelled_nh

get_ipv6_l4proto_lem_example : Ends IsLast (get_ipv6_l4proto (length tunnelled + 2) tunnelled 0)
get_ipv6_l4proto_lem_example = get_ipv6_l4proto_lem tunnelled 0

-- Port 80 to 8080, in network byte order.
abbrev web : List Entry
web = record { from = 20480; to = 36895 } ∷ []

-- UDP without a checksum.
abbrev plain : List ℕ
plain = header 17 ++ (4 ∷ 210 ∷ 0 ∷ 80 ∷ 0 ∷ 8 ∷ 0 ∷ 0 ∷ [])

plain_nh : byte_of plain 6 ≡ value 17
unfolding byte_of
plain_nh = refl

plain_sum : le16_at plain 46 ≡ value 0
unfolding le16_at byte_of
plain_sum = refl

rewrite_ipv6_ports_lem_example :
    Ends (λ r. (r.0 ≡ ok) × IsRewritten web 17 8 plain r.1) (rewrite_ipv6_ports web (some plain))
rewrite_ipv6_ports_lem_example =
    rewrite_ipv6_ports_lem web plain 17 8 (omega arith) refl (omega arith) plain_nh (inr refl)
      (inl (refl, plain_sum))
