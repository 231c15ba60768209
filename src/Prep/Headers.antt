-- ===== src/Prep/Headers.antt =====
-- Where tcpprep reads: the IP header lies in the packet, and behind it the port is looked for only
-- inside the packet.
use tcpreplay.Prelude.{
  ℕ, zero, suc, ◌+◌, ◌-◌, ◌*◌, ◌%◌, ◌^◌, ◌≤◌, ◌<◌, ◌≡◌, ◌≢◌, refl, arith, Bool, false, List, [],
  ◌∷◌, Option, none, some, ◌==◌, length, take, drop, length-take, length-drop, ap, IsBytes,
}
use tcpreplay.Packet.{value, then_with}
use tcpreplay.Packet.Laws.{
  Ends, AnyNumber, ends_byte_below, ends_bind, ends_then, ends_room, ends_if, ends_byte, ends_be16,
}
use tcpreplay.L2.{
  Layer2, ethertype_ip, ethertype_ip6, juniper_ether, link_of, get_l2len_protocol, len_or_zero,
  get_l2len, ip_header, get_ipv4, get_ipv6,
}
use tcpreplay.L2.Labels.{Reaches}
use tcpreplay.L2.Bounds.{by_link_starts}
use tcpreplay.Portmap.Rewrite.{get_layer4_v4}
use tcpreplay.Ipv6.L4proto.{IsLast, get_ipv6_l4proto_lem}
use tcpreplay.Ipv6.Turns.{Lands}
use tcpreplay.Ipv6.Layer4.{get_layer4_v6_lem}
use tcpreplay.Tree.Packets.{bytes_at}
use tcpreplay.Prep.{
  Options, Ip, v4, v6, as_v6, or_ipv6, find_ip, service, port_of, check_dst_port4, check_dst_port6,
  check_dst_port,
}

-- The IP header stands right behind layer 2, with so many bytes of it in the packet.
abbrev pub StandsAt : List ℕ → ℕ → ℕ → ℕ → Type 0
StandsAt packet datalink size p = (get_l2len packet datalink ≡ value p) × (p + size ≤ length packet)

abbrev Placed : List ℕ → ℕ → ℕ → Option ℕ → Type 0
Placed packet datalink size none = Unit {0}
Placed packet datalink size (some p) = StandsAt packet datalink size p

abbrev pub HasHeader : List ℕ → ℕ → Option Ip → Type 0
HasHeader packet datalink none = Unit {0}
HasHeader packet datalink (some (v4 p)) = StandsAt packet datalink 20 p
HasHeader packet datalink (some (v6 p)) = StandsAt packet datalink 40 p

-- Packets shorter than 2 ^ 31 bytes, on a link type that the model places.
module _ (packet : List ℕ) (datalink : ℕ) (short : length packet < 2 ^ 31)
    (ne : link_of datalink ≢ juniper_ether) where
  l2_lem : Ends (Reaches packet 0) (get_l2len_protocol packet datalink)
  unfolding get_l2len_protocol
  l2_lem =
      ends_if (Reaches packet 0) (length packet == 0) _ _ (λ t. (none, refl, tt))
        (λ f. by_link_starts packet (link_of datalink) ne (ground arith))

  place_lem :
      (size ethertype : ℕ) (o : Option Layer2)
      → get_l2len_protocol packet datalink ≡ value o
      → Reaches packet 0 o
      → Ends (Placed packet datalink size) (ip_header packet size ethertype o)
  unfolding ip_header get_l2len
  place_lem size ethertype none e r = (none, refl, tt)
  place_lem size ethertype (some s) e r =
      ends_room (Placed packet datalink size) (length packet) (s.l2len + size) _ _ (none, refl, tt)
        (λ room.
          ends_if (Placed packet datalink size) (s.protocol == ethertype) _ _
            (λ t. (
              some s.l2len,
              ap (λ (n : ℕ). value (some n)) (omega arith),
              (ap (λ w. then_with w len_or_zero) e, room),
            ))
            (λ f. (none, refl, tt)))

  find_lem :
      (size ethertype : ℕ)
      → Ends
          (Placed packet datalink size)
          (then_with (get_l2len_protocol packet datalink) (ip_header packet size ethertype))
  find_lem size ethertype =
      let l = l2_lem in
      ends_then (Placed packet datalink size) _ (ip_header packet size ethertype) l.0 l.1
        (place_lem size ethertype l.0 l.1 l.2)

  pub find_ip_lem : Ends (HasHeader packet datalink) (find_ip packet datalink)
  unfolding find_ip get_ipv4 get_ipv6
  find_ip_lem =
      ends_bind (Placed packet datalink 20) (HasHeader packet datalink) _ (or_ipv6 packet datalink)
        (find_lem 20 ethertype_ip) (λ o r. second o r)
    where
      third : (o : Option ℕ) → Placed packet datalink 40 o → HasHeader packet datalink (as_v6 o)
      third none r = r
      third (some p) r = r

      second :
          (o : Option ℕ)
          → Placed packet datalink 20 o
          → Ends (HasHeader packet datalink) (or_ipv6 packet datalink o)
      second (some p) r = (some (v4 p), refl, r)
      second none r =
          ends_bind (Placed packet datalink 40) (HasHeader packet datalink) _ (λ o. value (as_v6 o))
            (find_lem 40 ethertype_ip6) (λ o q. (as_v6 o, refl, third o q))

abbrev AnyTruth : Bool → Type 0
AnyTruth b = Unit {0}

service_lem :
    (services : ℕ → Bool) (l3 : List ℕ) (l4 need : ℕ)
    → 4 ≤ need
    → Ends AnyTruth (service services l3 l4 need)
service_lem services l3 l4 need h =
    ends_room AnyTruth (length l3 - l4) need _ _ (false, refl, tt)
      (λ room.
        ends_bind AnyNumber AnyTruth _ _ (ends_be16 l3 (l4 + 2) (omega arith))
          (λ dport u. (services dport, refl, tt)))

port_of_lem :
    (o : Options) (l3 : List ℕ) (proto : ℕ) (l4 : Option ℕ) → Ends AnyTruth (port_of o l3 proto l4)
unfolding port_of
port_of_lem o l3 proto none = (false, refl, tt)
port_of_lem o l3 proto (some l4) =
    ends_if AnyTruth (proto == 6) _ _ (λ t. service_lem o.tcp_services l3 l4 20 (omega arith))
      (λ f.
        ends_if AnyTruth (proto == 17) _ _ (λ t. service_lem o.udp_services l3 l4 8 (omega arith))
          (λ g. (o.nonip, refl, tt)))

port4_lem : (o : Options) (l3 : List ℕ) → 20 ≤ length l3 → Ends AnyTruth (check_dst_port4 o l3)
unfolding check_dst_port4
port4_lem o l3 h = ends_bind AnyNumber AnyTruth _ _ (ends_byte l3 0 (omega arith)) (λ first u.
    ends_room AnyTruth (length l3) (first % 16 * 4 + 4) _ _ (false, refl, tt)
      (λ room. ends_bind AnyNumber AnyTruth _ _ (ends_byte l3 9 (omega arith)) (λ proto v.
        port_of_lem o l3 proto
          (get_layer4_v4 (record { ip_hl = first % 16; ip_p = proto }) (length l3)))))

port6_lem : (o : Options) (l3 : List ℕ) → Ends AnyTruth (check_dst_port6 o l3)
unfolding check_dst_port6
port6_lem o l3 =
    ends_room AnyTruth (length l3) 44 _ _ (false, refl, tt)
      (λ room. ends_bind IsLast AnyTruth _ _ (get_ipv6_l4proto_lem l3 0) (λ proto u.
        ends_bind (Lands l3 40) AnyTruth _ (port_of o l3 proto) (get_layer4_v6_lem l3 0)
          (λ l4 v. port_of_lem o l3 proto l4)))

-- The destination port is looked for inside the packet, whatever the header says.
pub check_dst_port_lem :
    (o : Options) (packet : List ℕ) (p : ℕ)
    → p + 20 ≤ length packet
    → Ends AnyTruth (check_dst_port o packet (length packet - p) (v4 p))
      × Ends AnyTruth (check_dst_port o packet (length packet - p) (v6 p))
unfolding check_dst_port
check_dst_port_lem o packet p h = (
  port4_lem o (take (length packet - p) (drop p packet))
      (omega (arith, length-take (length packet - p) (drop p packet), length-drop p packet)),
  port6_lem o (take (length packet - p) (drop p packet)),
)

abbrev pub IsRow : ℕ → List ℕ → Type 0
IsRow n bs = IsBytes bs × (length bs ≡ n)

-- Bytes of the packet, all below 256.
pub ends_bytes_below :
    (n : ℕ) (packet : List ℕ) (i : ℕ)
    → IsBytes packet
    → i + n ≤ length packet
    → Ends (IsRow n) (bytes_at n packet i)
unfolding bytes_at
ends_bytes_below zero packet i b h = ([], refl, (tt, refl))
ends_bytes_below (suc n) packet i b h =
    ends_bind (λ x. x < 256) (IsRow (suc n)) _ _ (ends_byte_below packet i b (omega arith))
      (λ x q.
        ends_bind (IsRow n) (IsRow (suc n)) _ _ (ends_bytes_below n packet (i + 1) b (omega arith))
          (λ bs r. (x ∷ bs, refl, ((q, r.0), ap suc r.1))))
