-- ===== src/Tree/Capture/Laws.antt =====
-- The first packet mode reads no byte behind a packet.
use tcpreplay.Prelude.{ℕ, ◌+◌, refl, arith, List, Option, none, some, length}
use tcpreplay.Cidr.{af_inet, af_inet6}
use tcpreplay.Packet.Laws.{Ends, AnyNumber, ends_bind, ends_room}
use tcpreplay.L2.{Layer2}
use tcpreplay.L2.Bounds.{IsInside, get_l2len_protocol_lem}
use tcpreplay.Tree.{RbTree, new_tree}
use tcpreplay.Tree.Packets.Laws.{AnyBytes, ends_le32, ends_bytes}
use tcpreplay.Tree.Capture.{
  add_ends, first_at_ipv4, add_tree_first_ipv4, first_at_ipv6, add_tree_first_ipv6,
}

abbrev pub AnyTree : (R : RbTree) → Option R.Tree → Type 0
AnyTree R o = Unit {0}

first_at_ends :
    (R : RbTree) (t : R.Tree) (packet : List ℕ) (o : Option Layer2)
    → Ends (AnyTree R) (first_at_ipv4 R t packet o) × Ends (AnyTree R) (first_at_ipv6 R t packet o)
unfolding first_at_ipv4 first_at_ipv6
first_at_ends R t packet none = ((none, refl, tt), (none, refl, tt))
first_at_ends R t packet (some s) = (
  ends_room (AnyTree R) (length packet) (s.l2len + 20) _ _ (none, refl, tt)
      (λ room.
        ends_bind AnyNumber (AnyTree R) _ _ (ends_le32 packet (s.l2len + 12) (omega arith))
          (λ src q.
            ends_bind AnyNumber (AnyTree R) _ _ (ends_le32 packet (s.l2len + 16) (omega arith))
              (λ dst r. (
                some (
                    add_ends R t (record new_tree { family = af_inet; ip = src })
                      (record new_tree { family = af_inet; ip = dst })),
                refl,
                tt,
              )))),
  ends_room (AnyTree R) (length packet) (s.l2len + 40) _ _ (none, refl, tt)
      (λ room.
        ends_bind AnyBytes (AnyTree R) _ _ (ends_bytes 16 packet (s.l2len + 8) (omega arith))
          (λ src q.
            ends_bind AnyBytes (AnyTree R) _ _ (ends_bytes 16 packet (s.l2len + 24) (omega arith))
              (λ dst r. (
                some (
                    add_ends R t (record new_tree { family = af_inet6; ip6 = src })
                      (record new_tree { family = af_inet6; ip6 = dst })),
                refl,
                tt,
              )))),
)

-- In first packet mode too no byte behind the packet is read.
pub add_tree_first_ends :
    (R : RbTree) (t : R.Tree) (packet : List ℕ) (datalink : ℕ)
    → Ends (AnyTree R) (add_tree_first_ipv4 R t packet datalink)
      × Ends (AnyTree R) (add_tree_first_ipv6 R t packet datalink)
unfolding add_tree_first_ipv4 add_tree_first_ipv6
add_tree_first_ends R t packet datalink = (
  ends_bind (IsInside packet) (AnyTree R) _ (first_at_ipv4 R t packet)
      (get_l2len_protocol_lem packet datalink) (λ o u. (first_at_ends R t packet o).0),
  ends_bind (IsInside packet) (AnyTree R) _ (first_at_ipv6 R t packet)
      (get_l2len_protocol_lem packet datalink) (λ o u. (first_at_ends R t packet o).1),
)
