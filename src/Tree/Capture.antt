-- ===== src/Tree/Capture.antt =====
-- What the first pass of tcpprep adds to the tree for one packet: `add_tree_ipv4`, `add_tree_ipv6`, `add_tree_first_ipv4`
-- and `add_tree_first_ipv6` of src/tree.c.
pub mod Laws
use tcpreplay.Prelude.{ℕ, ◌+◌, List, [], ◌∷◌, Option, none, some, ltb, if◌then◌else◌, length}
use tcpreplay.Cidr.{af_inet, af_inet6}
use tcpreplay.Packet.{Walk, value, then_with}
use tcpreplay.L2.{Layer2, get_l2len_protocol}
use tcpreplay.Tree.{dir_client, dir_server, Node, RbTree, add_tree_node, new_tree}
use tcpreplay.Tree.Packets.{le32_at, bytes_at, packet2tree}

-- `none` is the exit.
abbrev pub add_made : (R : RbTree) → R.Tree → Option Node → Option R.Tree
add_made R t none = none
add_made R t (some n) = some (add_tree_node R t n)

-- `add_tree_ipv4` and `add_tree_ipv6`: the address that the caller gives is that of the packet, and
-- the code asserts so.
unfoldable pub add_tree : (R : RbTree) → R.Tree → List ℕ → ℕ → Walk (Option R.Tree)
add_tree R t packet datalink = then_with (packet2tree packet datalink) (λ o. value (add_made R t o))

-- A host that is not in the tree is inserted.
abbrev pub unless_known : (R : RbTree) → R.Tree → Node → Option Node → R.Tree
unless_known R t new none = R.insert t new
unless_known R t new (some n) = t

abbrev pub add_first : (R : RbTree) → R.Tree → Node → R.Tree
add_first R t new = unless_known R t new (R.find t new)

-- The source as a client, then the destination as a server.
abbrev pub add_ends : (R : RbTree) → R.Tree → Node → Node → R.Tree
add_ends R t src dst =
    add_first R (add_first R t (record src { role = dir_client; client_cnt = 1000 }))
      (record dst { role = dir_server; server_cnt = 1000 })

unfoldable pub first_at_ipv4 : (R : RbTree) → R.Tree → List ℕ → Option Layer2 → Walk (Option R.Tree)
first_at_ipv4 R t packet none = value none
first_at_ipv4 R t packet (some s) =
    if ltb (length packet) (s.l2len + 20)
    then value none
    else then_with (le32_at packet (s.l2len + 12)) (λ src.
      then_with (le32_at packet (s.l2len + 16)) (λ dst. value (
        some (
          add_ends R t (record new_tree { family = af_inet; ip = src })
            (record new_tree { family = af_inet; ip = dst })))))

unfoldable pub add_tree_first_ipv4 : (R : RbTree) → R.Tree → List ℕ → ℕ → Walk (Option R.Tree)
add_tree_first_ipv4 R t packet datalink =
    then_with (get_l2len_protocol packet datalink) (first_at_ipv4 R t packet)

unfoldable pub first_at_ipv6 : (R : RbTree) → R.Tree → List ℕ → Option Layer2 → Walk (Option R.Tree)
first_at_ipv6 R t packet none = value none
first_at_ipv6 R t packet (some s) =
    if ltb (length packet) (s.l2len + 40)
    then value none
    else then_with (bytes_at 16 packet (s.l2len + 8)) (λ src.
      then_with (bytes_at 16 packet (s.l2len + 24)) (λ dst. value (
        some (
          add_ends R t (record new_tree { family = af_inet6; ip6 = src })
            (record new_tree { family = af_inet6; ip6 = dst })))))

unfoldable pub add_tree_first_ipv6 : (R : RbTree) → R.Tree → List ℕ → ℕ → Walk (Option R.Tree)
add_tree_first_ipv6 R t packet datalink =
    then_with (get_l2len_protocol packet datalink) (first_at_ipv6 R t packet)
