-- ===== src/Edit/Tests.antt =====
-- A TCP packet from 192.168.0.1 to 10.0.0.2, and a map of 192.168.0.0/16 onto 10.9.0.0/16.
use tcpreplay.Prelude.{
  ℕ, ◌/◌, ◌%◌, ◌≤◌, ◌<◌, ◌≡◌, ◌≢◌, refl, arith, true, false, List, [], ◌∷◌, none, some, pos, inl,
  inr, ◌&&◌,
}
use tcpreplay.Cidr.{Cidr, af_inet, af_inet6}
use tcpreplay.Portmap.{Entry}
use tcpreplay.Portmap.Rewrite.{ok, error}
use tcpreplay.Edit.{
  ttl_sub, CidrMap, Tcpedit, Ipv4Hdr, is_multicast_ipv4, remap_ipv4, remap_by_family,
}
use tcpreplay.Edit.Sums.{IsSummed, KeepsFields}
use tcpreplay.Edit.Map.{c2s, rewrite_ipv4l3}
use tcpreplay.Edit.Map.Laws.{IsEntry, Mapped}
use tcpreplay.Edit.Map.Rewrite.{HasMaps, rewrite_ipv4l3_lem}
use tcpreplay.Edit.Header.{randomize_ipv4}
use tcpreplay.Edit.Header.Laws.{Clamped, SameClass, randomize_ipv4_lem}
use tcpreplay.Edit.Chain.{Datagram, edit_ipv4}
use tcpreplay.Edit.Chain.Ports.{IsDatagram}
use tcpreplay.Edit.Chain.Laws.{Edited, edit_ipv4_lem}
use tcpreplay.Edit.V6.{is_multicast_ipv6, remap_ipv6}
use tcpreplay.Edit.V6.Laws.{HasPrefix, remap_ipv6_lem}

-- The addresses of IPv4 as a little-endian host loads them.
abbrev home : Cidr
home = record { family = af_inet; network = 0x0000a8c0; network6 = []; masklen = pos 16 }

abbrev office : Cidr
office = record { family = af_inet; network = 0x0000090a; network6 = []; masklen = pos 16 }

abbrev move_home : CidrMap
move_home = record { from = home; to = office }

abbrev settings : Tcpedit
settings = record {
  skip_broadcast = true;
  ttl_mode = ttl_sub;
  ttl_value = 60;
  tos = some 8;
  cidrmap1 = move_home ∷ [];
  cidrmap2 = move_home ∷ [];
  srcipmap = [];
  dstipmap = [];
  seed = 42;
  rewrite_ip = true;
}

abbrev header : Ipv4Hdr
header = record {
  ip_hl = 5;
  ip_v = 4;
  ip_tos = 0;
  ip_len = 0x2800;
  ip_id = 0;
  ip_off = 0;
  ip_ttl = 64;
  ip_p = 6;
  ip_sum = 9648;
  ip_src = 0x0100a8c0;
  ip_dst = 0x0200000a;
  l4_sum = 28717;
}

abbrev packet : Datagram
packet = record { ip = header; sport = 0x5000; dport = 0x901f }

-- Port 80 becomes 8080.
abbrev web : List Entry
web = record { from = 0x5000; to = 0x901f } ∷ []

header-IsSummed : IsSummed 0 58375 40 header
header-IsSummed = (omega arith, refl, (λ k. inr refl))

settings-HasMaps : HasMaps settings
settings-HasMaps =
    let entry : IsEntry move_home =
      ((16, refl, inl (refl, omega arith)), (16, refl, refl, omega arith, omega arith)) in
    (tt, (entry, tt), (entry, tt), tt, tt)

remapped : remap_ipv4 settings office 0x0100a8c0 ≡ some 0x0100090a
unfolding remap_ipv4 remap_by_family is_multicast_ipv4
remapped = refl

rewrite_ipv4l3_lem_example :
    (h' : Ipv4Hdr) × (rewrite_ipv4l3 settings header c2s 40 ≡ some h')
    × KeepsFields header h'
    × IsSummed 0 58375 40 h'
    × ((a : ℕ) × Mapped settings [] header.ip_src a × Mapped settings (move_home ∷ []) a h'.ip_src)
    × ((b : ℕ) × Mapped settings [] header.ip_dst b × Mapped settings (move_home ∷ []) b h'.ip_dst)
rewrite_ipv4l3_lem_example =
    rewrite_ipv4l3_lem settings 0 58375 40 c2s header (omega arith) settings-HasMaps header-IsSummed

randomize_ipv4_lem_example :
    (40 < 20 → randomize_ipv4 settings header 40 ≡ some (error, header))
    × (20 ≤ 40
        → (h' : Ipv4Hdr) × (randomize_ipv4 settings header 40 ≡ some (ok, h'))
          × KeepsFields header h'
          × IsSummed 0 58375 40 h'
          × SameClass settings header.ip_src h'.ip_src
          × SameClass settings header.ip_dst h'.ip_dst)
randomize_ipv4_lem_example = randomize_ipv4_lem settings 0 58375 40 header header-IsSummed

edit_ipv4_lem_example :
    (d' : Datagram) × (edit_ipv4 settings web c2s 40 packet ≡ some (ok, d'))
    × IsDatagram 0 1000 40 d'
    × Clamped ttl_sub 60 64 d'.ip.ip_ttl
    × Edited header d'.ip
edit_ipv4_lem_example =
    edit_ipv4_lem settings web c2s 0 1000 40 packet (omega arith) (omega arith) settings-HasMaps
      (omega arith, omega arith, header-IsSummed)

-- 2001:db8::/32, and fe80::1.
abbrev documentation : Cidr
documentation = record {
  family = af_inet6;
  network = 0;
  network6 = 0x20 ∷ 0x01 ∷ 0x0d ∷ 0xb8 ∷ 0 ∷ 0 ∷ 0 ∷ 0 ∷ 0 ∷ 0 ∷ 0 ∷ 0 ∷ 0 ∷ 0 ∷ 0 ∷ 0 ∷ [];
  masklen = pos 32;
}

abbrev local_address : List ℕ
local_address = 0xfe ∷ 0x80 ∷ 0 ∷ 0 ∷ 0 ∷ 0 ∷ 0 ∷ 0 ∷ 0 ∷ 0 ∷ 0 ∷ 0 ∷ 0 ∷ 0 ∷ 0 ∷ 1 ∷ []

remap_ipv6_lem_example :
    ((true && is_multicast_ipv6 local_address) ≡ true
      → remap_ipv6 settings documentation local_address ≡ some (0, local_address))
    × ((true && is_multicast_ipv6 local_address) ≡ false
        → 32 % 8 ≡ 0
        → (moved : List ℕ) × (remap_ipv6 settings documentation local_address ≡ some (1, moved))
          × HasPrefix (32 / 8) documentation.network6 local_address moved)
    × ((true && is_multicast_ipv6 local_address) ≡ false
        → 32 % 8 ≢ 0
        → remap_ipv6 settings documentation local_address ≡ none)
remap_ipv6_lem_example =
    remap_ipv6_lem settings documentation 32 local_address refl refl (omega arith) refl refl
