-- ===== src/Edit.antt =====
-- The IPv4 edits of src/tcpedit/edit_packet.c on the fields of a header, on a little-endian host: an
-- address is the 32-bit number that the host loads, and the 16-bit words are loaded likewise.
pub mod Addresses
pub mod Sums
pub mod Map
pub mod Header
pub mod Chain
pub mod V6
mod Tests
use tcpreplay.Prelude.{
  ℕ, ◌+◌, ◌-◌, ◌*◌, ◌/◌, ◌%◌, ◌^◌, Bool, true, false, not, List, Option, none, some, ltb, leb, ◌==◌,
  ◌&&◌, if◌then◌else◌, u8, u32, swap16, swap32, bit_and, bit_xor, ℤ, pos, negsuc,
}
use tcpreplay.Cidr.{Cidr, Family, af_unspec, af_inet, af_inet6}
use tcpreplay.Checksum.{csum_replace2, csum_replace4}
use tcpreplay.Portmap.Rewrite.{get_layer4_v4, proto_tcp, proto_udp}

-- `tcpedit_ttl_mode`
pub data TtlMode : Type 0 where
  ttl_off ttl_set ttl_add ttl_sub : TtlMode

-- `tcpr_cidrmap_t` less its `next`
pub record CidrMap : Type 0 where
  pub from : Cidr
  pub to : Cidr

-- The fields of `tcpedit_t` that the edits read; `tos` is `none` where it is -1.
pub record Tcpedit : Type 0 where
  pub skip_broadcast : Bool
  pub ttl_mode : TtlMode
  pub ttl_value : ℕ
  pub tos : Option ℕ
  pub cidrmap1 : List CidrMap
  pub cidrmap2 : List CidrMap
  pub srcipmap : List CidrMap
  pub dstipmap : List CidrMap
  pub seed : ℕ
  pub rewrite_ip : Bool

-- `ipv4_hdr_t`, and in `l4_sum` the `th_sum` or `uh_sum` of the header behind it.
pub record Ipv4Hdr : Type 0 where
  pub ip_hl : ℕ
  pub ip_v : ℕ
  pub ip_tos : ℕ
  pub ip_len : ℕ
  pub ip_id : ℕ
  pub ip_off : ℕ
  pub ip_ttl : ℕ
  pub ip_p : ℕ
  pub ip_sum : ℕ
  pub ip_src : ℕ
  pub ip_dst : ℕ
  pub l4_sum : ℕ

-- `(ntohl(ip) & 0xf0000000) == 0xe0000000`
unfoldable pub is_multicast_ipv4 : ℕ → Bool
is_multicast_ipv4 ip = swap32 ip / 2 ^ 28 == 14

unfoldable pub set_multicast_ipv4 : ℕ → ℕ
set_multicast_ipv4 ip = swap32 (swap32 ip % 2 ^ 28 + 0xe000_0000)

unfoldable pub set_unicast_ipv4 : ℕ → ℕ
set_unicast_ipv4 ip = swap32 (swap32 ip % 2 ^ 31)

-- `(ip ^ s) - (ip & s)` in 32 bits.
unfoldable pub mixed : ℕ → ℕ → ℕ
mixed ip s = u32 (bit_xor ip s + 2 ^ 32 - bit_and ip s)

unfoldable pub randomize_ipv4_addr : Tcpedit → ℕ → ℕ
randomize_ipv4_addr t ip =
    let was_multicast = is_multicast_ipv4 ip in
    let res_ip = mixed ip (swap32 t.seed) in
    if t.skip_broadcast && was_multicast
    then ip
    else if was_multicast && not (is_multicast_ipv4 res_ip)
    then set_multicast_ipv4 res_ip
    else if not was_multicast && is_multicast_ipv4 res_ip
    then set_unicast_ipv4 res_ip
    else res_ip

-- `32 - masklen`, if it is a shift that C defines for 32 bits.
abbrev pub mask_shift : ℤ → Option ℕ
mask_shift (pos m) = if m == 0 then none else if leb m 32 then some (32 - m) else none
mask_shift (negsuc m) = none

-- The network's bits from `s` up and the address's below. The two have no bit in common, so that
-- `network ^ ipaddr` is their sum.
abbrev pub merged : Option ℕ → ℕ → ℕ → Option ℕ
merged none network original = none
merged (some s) network original =
    some (swap32 (swap32 network / 2 ^ s * 2 ^ s + swap32 original % 2 ^ s))

-- `none` is a shift that C leaves undefined. An IPv6 target makes the address 0.
unfoldable pub remap_by_family : Tcpedit → Family → Cidr → ℕ → Option ℕ
remap_by_family t af_unspec c original = some 0
remap_by_family t af_inet6 c original = some 0
remap_by_family t af_inet c original =
    if t.skip_broadcast && is_multicast_ipv4 original
    then some original
    else merged (mask_shift c.masklen) c.network original

unfoldable pub remap_ipv4 : Tcpedit → Cidr → ℕ → Option ℕ
remap_ipv4 t c original = remap_by_family t c.family c original

-- `(htons(ip_off) & IP_OFFMASK) == 0`: not a later fragment.
abbrev pub first_fragment : Ipv4Hdr → Bool
first_fragment h = swap16 h.ip_off % 2 ^ 13 == 0

-- A layer 4 header of so many bytes behind the IP header: `len` does not fall below 0.
abbrev pub room_for : Option ℕ → ℕ → ℕ → Bool
room_for none size l3len = false
room_for (some l4) size l3len = leb (l4 + size) l3len

-- Is `l4` there, for a protocol whose checksum covers the addresses?
unfoldable pub at_l4 : ℕ → ℕ → ℕ → Bool
at_l4 ip_hl ip_p l3len =
    let l4 = get_layer4_v4 (record { ip_hl = ip_hl; ip_p = ip_p }) l3len in
    if ip_p == proto_udp
    then room_for l4 8 l3len
    else if ip_p == proto_tcp
    then room_for l4 20 l3len
    else false

-- A UDP checksum of 0 stands for none, and is left.
unfoldable pub ipv4_l34_csum_replace : ℕ → ℕ → ℕ → ℕ → ℕ
ipv4_l34_csum_replace protocol sum old new =
    if protocol == proto_udp && sum == 0 then sum else csum_replace4 sum old new

-- For a header with `ip_hl` of 5 at least. With a smaller one the layer 4 header lies over the IP
-- header itself; that write is not modelled, and is `none`.
unfoldable pub ipv4_addr_csum_replace : Ipv4Hdr → ℕ → ℕ → ℕ → Option Ipv4Hdr
ipv4_addr_csum_replace h old_ip new_ip l3len =
    if ltb l3len 20
    then some h
    else let summed = record h { ip_sum = csum_replace4 h.ip_sum old_ip new_ip } in
      if at_l4 h.ip_hl h.ip_p l3len && first_fragment h
      then if ltb h.ip_hl 5
        then none
        else some (record summed { l4_sum = ipv4_l34_csum_replace h.ip_p h.l4_sum old_ip new_ip })
      else some summed

-- The new TTL or hop limit: set, or moved and kept from 1 to 255.
unfoldable pub new_ttl : TtlMode → ℕ → ℕ → ℕ
new_ttl ttl_off value ttl = ttl
new_ttl ttl_set value ttl = value
new_ttl ttl_add value ttl = if ltb 255 (ttl + value) then 255 else u8 (ttl + value)
new_ttl ttl_sub value ttl = if leb ttl value then 1 else ttl - value

-- Does the code go on to change the TTL, or return 0 in front of it?
unfoldable pub ttl_changes : TtlMode → ℕ → ℕ → Bool
ttl_changes ttl_off value ttl = false
ttl_changes ttl_set value ttl = not (ttl == value)
ttl_changes ttl_add value ttl = true
ttl_changes ttl_sub value ttl = true

-- The result is 1 where the header was changed.
unfoldable pub rewrite_ipv4_ttl : Tcpedit → Ipv4Hdr → ℕ × Ipv4Hdr
rewrite_ipv4_ttl t h =
    let newval = new_ttl t.ttl_mode t.ttl_value h.ip_ttl in
    if ttl_changes t.ttl_mode t.ttl_value h.ip_ttl
    then (1, record h { ip_ttl = newval; ip_sum = csum_replace2 h.ip_sum h.ip_ttl newval })
    else (0, h)

-- The hop limit of an IPv6 header, which no checksum of its own covers.
unfoldable pub rewrite_ipv6_hlim : Tcpedit → ℕ → ℕ × ℕ
rewrite_ipv6_hlim t ip_hl =
    if ttl_changes t.ttl_mode t.ttl_value ip_hl
    then (1, new_ttl t.ttl_mode t.ttl_value ip_hl)
    else (0, ip_hl)

-- The two address fields.
pub data Side : Type 0 where
  source destination : Side

abbrev pub addr_at : Side → Ipv4Hdr → ℕ
addr_at source h = h.ip_src
addr_at destination h = h.ip_dst

abbrev pub with_addr : Side → ℕ → Ipv4Hdr → Ipv4Hdr
with_addr source a h = record h { ip_src = a }
with_addr destination a h = record h { ip_dst = a }

-- An address is stored, and the checksums are moved by it.
unfoldable pub store_addr : Side → ℕ → ℕ → Ipv4Hdr → Option Ipv4Hdr
store_addr side new_ip l3len h =
    ipv4_addr_csum_replace (with_addr side new_ip h) (addr_at side h) new_ip l3len
