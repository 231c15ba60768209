-- ===== src/Ipv6.antt =====
-- The walk over the extension headers of an IPv6 packet: `get_ipv6_next`, `get_layer4_v6` and
-- `get_ipv6_l4proto` of src/common/get.c. A packet is its bytes up to `end_ptr`, a pointer is an
-- offset into it. The loops run on fuel.
pub mod Turns
pub mod Layer4
pub mod L4proto
pub mod Rewrite
mod Tests
use tcpreplay.Prelude.{
  ℕ, zero, suc, ◌+◌, ◌*◌, Bool, true, false, List, [], ◌∷◌, Option, none, some, ltb, ◌==◌, ◌||◌,
  not, if◌then◌else◌, length, u8,
}
use tcpreplay.Packet.{Walk, value, unfinished, then_with, byte_of}

-- `TCPR_IPV6_H`
abbrev pub ipv6_h : ℕ
ipv6_h = 40

-- The next headers that the code tells apart.
pub data Kind : Type 0 where
  no_next tunnel encrypted fragment extension other : Kind

unfoldable pub kind_of : ℕ → Kind
kind_of proto =
    if proto == 59
    then no_next
    else if proto == 41
    then tunnel
    else if proto == 50
    then encrypted
    else if proto == 44
    then fragment
    else if proto == 51 || proto == 43 || proto == 60 || proto == 0
    then extension
    else other

-- A pointer that does not lie behind the end.
abbrev pub within : List ℕ → ℕ → Option ℕ
within packet ptr = if ltb (length packet) ptr then none else some ptr

-- `IPV6_EXTLEN_TO_BYTES`
abbrev pub extlen_to_bytes : ℕ → ℕ
extlen_to_bytes x = x * 4 + 8

-- `extlen` is a `uint8_t`.
unfoldable pub jump : List ℕ → ℕ → ℕ → Walk (Option ℕ)
jump packet exthdr len =
    if u8 (extlen_to_bytes len) == 0
    then value none
    else value (within packet (exthdr + u8 (extlen_to_bytes len)))

unfoldable pub next_by : List ℕ → ℕ → Kind → Walk (Option ℕ)
next_by packet exthdr no_next = value none
next_by packet exthdr encrypted = value none
next_by packet exthdr fragment = value (within packet (exthdr + 8))
next_by packet exthdr tunnel = then_with (byte_of packet (exthdr + 1)) (jump packet exthdr)
next_by packet exthdr extension = then_with (byte_of packet (exthdr + 1)) (jump packet exthdr)
next_by packet exthdr other = value (some exthdr)

unfoldable pub get_ipv6_next : List ℕ → ℕ → Walk (Option ℕ)
get_ipv6_next packet exthdr =
    if ltb (length packet) (exthdr + 2)
    then value none
    else then_with (byte_of packet exthdr) (λ ip_nh. next_by packet exthdr (kind_of ip_nh))

-- `ipv6_exthdr_fits`, and what is done with the header's `ip_nh` where it does.
unfoldable pub if_fits {ℓ} : {A : Type ℓ} → List ℕ → Option ℕ → A → (ℕ → ℕ → Walk A) → Walk A
if_fits packet none a k = value a
if_fits packet (some exthdr) a k =
    if ltb (length packet) (exthdr + 2)
    then value a
    else then_with (byte_of packet exthdr) (λ proto. k proto exthdr)

-- The IPv6 header at `hdr`: its `ip_nh` and the end of it, unless it does not fit.
unfoldable pub enter {ℓ} : {A : Type ℓ} → List ℕ → ℕ → A → (ℕ → ℕ → Walk A) → Walk A
enter packet hdr a k =
    if ltb (length packet) (hdr + ipv6_h)
    then value a
    else then_with (byte_of packet (hdr + 6)) (λ proto. k proto (hdr + ipv6_h))

-- The `default` of the switch: behind an extension header, its length is added.
unfoldable pub land : List ℕ → ℕ → ℕ → ℕ → Walk (Option ℕ)
land packet first proto next =
    if proto == first
    then value (some next)
    else if ltb (length packet) (next + 2)
    then value none
    else then_with (byte_of packet (next + 1))
        (λ len. value (within packet (next + extlen_to_bytes len)))

-- After the call on a tunnelled packet the loop goes on with the same `proto`.
abbrev pub again : (ℕ → Walk (Option ℕ)) → Option ℕ → Walk (Option ℕ)
again loop none = value none
again loop (some next) = loop next

-- One turn of the loop of `get_layer4_v6`, whose `ip6_hdr->ip_nh` is `first`; `loop` goes on.
unfoldable pub layer4_turn :
    (ℕ → ℕ → ℕ → Walk (Option ℕ)) → List ℕ → ℕ → ℕ → ℕ → Kind → Walk (Option ℕ)
layer4_turn loop packet first proto next tunnel =
    then_with (enter packet next none (λ p n. loop p p n)) (again (λ n. loop first proto n))
layer4_turn loop packet first proto next extension =
    then_with (get_ipv6_next packet next) (λ o. if_fits packet o none (λ p n. loop first p n))
layer4_turn loop packet first proto next fragment =
    then_with (get_ipv6_next packet next) (λ o. if_fits packet o none (λ p n. loop first p n))
layer4_turn loop packet first proto next encrypted = value none
layer4_turn loop packet first proto next no_next = land packet first proto next
layer4_turn loop packet first proto next other = land packet first proto next

unfoldable pub layer4_loop : ℕ → List ℕ → ℕ → ℕ → ℕ → Walk (Option ℕ)
layer4_loop zero packet first proto next = unfinished
layer4_loop (suc fuel) packet first proto next =
    layer4_turn (λ f p n. layer4_loop fuel packet f p n) packet first proto next (kind_of proto)

unfoldable pub get_layer4_v6 : ℕ → List ℕ → ℕ → Walk (Option ℕ)
get_layer4_v6 fuel packet hdr = enter packet hdr none (λ p n. layer4_loop fuel packet p p n)

-- `TCPR_IPV6_NH_NO_NEXT`
abbrev pub nh_no_next : ℕ
nh_no_next = 59

unfoldable pub l4proto_turn : (ℕ → ℕ → Walk ℕ) → List ℕ → ℕ → ℕ → Kind → Walk ℕ
l4proto_turn loop packet proto ptr no_next = value proto
l4proto_turn loop packet proto ptr fragment = value proto
l4proto_turn loop packet proto ptr encrypted = value proto
l4proto_turn loop packet proto ptr tunnel = enter packet ptr nh_no_next loop
l4proto_turn loop packet proto ptr extension =
    then_with (get_ipv6_next packet ptr) (λ o. if_fits packet o nh_no_next loop)
l4proto_turn loop packet proto ptr other = value proto

unfoldable pub l4proto_loop : ℕ → List ℕ → ℕ → ℕ → Walk ℕ
l4proto_loop zero packet proto ptr = unfinished
l4proto_loop (suc fuel) packet proto ptr =
    l4proto_turn (λ p n. l4proto_loop fuel packet p n) packet proto ptr (kind_of proto)

unfoldable pub get_ipv6_l4proto : ℕ → List ℕ → ℕ → Walk ℕ
get_ipv6_l4proto fuel packet hdr = enter packet hdr nh_no_next (λ p n. l4proto_loop fuel packet p n)
