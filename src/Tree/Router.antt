-- ===== src/Tree/Router.antt =====
-- The router mode of src/tree.c: networks of servers are built from the tree for one mask length
-- after the other, until no client lies in them.
pub mod Laws
use tcpreplay.Prelude.{
  ℕ, zero, suc, ◌+◌, ◌-◌, ◌/◌, ◌%◌, Bool, true, false, List, [], ◌∷◌, Option, none, some, ltb, leb,
  ◌==◌, ◌||◌, if◌then◌else◌, pos, replicate,
}
use tcpreplay.Cidr.{
  Family, af_unspec, af_inet, af_inet6, Cidr, check_ip_cidr, check_ip6_cidr, add_cidr, byte,
  keep_high, top_bits,
}
use tcpreplay.Edit.Map.{then_some}
use tcpreplay.Edit.V6.{copy_bytes, put_byte}
use tcpreplay.Tree.{Role, dir_client, dir_server, dir_any, Node, same_role, RbTree, tree_calculate}

abbrev pub new_cidr : Cidr
new_cidr = record { family = af_unspec; network = 0; network6 = replicate 16 0; masklen = pos 99 }

-- Is the node of the type that is looked for?
abbrev pub wanted : Role → Node → Bool
wanted type n = same_role type dir_any || same_role type n.role

-- The network of an IPv4 node; the family stays what `new_cidr` made it. `none` is a shift below 0.
unfoldable pub network_of : ℕ → ℕ → Option Cidr
network_of masklen ip =
    if leb masklen 32
    then some (record new_cidr { masklen = pos masklen; network = keep_high ip (32 - masklen) })
    else none

-- The first bits of the address, in a network of zeros. `none` is a write behind its 16 bytes.
unfoldable pub prefix_of : ℕ → List ℕ → Option (List ℕ)
prefix_of masklen ip6 =
    let j = masklen / 8 in
    let network6 = copy_bytes j ip6 (replicate 16 0) in
    if ltb 16 j
    then none
    else if masklen % 8 == 0
    then some network6
    else put_byte network6 j (top_bits (byte ip6 j) (masklen % 8))

unfoldable pub network6_of : ℕ → List ℕ → Option Cidr
network6_of masklen ip6 =
    then_some (prefix_of masklen ip6)
      (λ network6. some (record new_cidr { masklen = pos masklen; network6 = network6 }))

-- A new network is added where the address is in none of those there.
abbrev pub unless_found : List Cidr → Bool → Option Cidr → Option (List Cidr)
unless_found cidrdata true new = some cidrdata
unless_found cidrdata false none = none
unless_found cidrdata false (some c) = some (add_cidr cidrdata (c ∷ []))

unfoldable pub build_node : ℕ → Family → Node → List Cidr → Option (List Cidr)
build_node masklen af_unspec n cidrdata = some cidrdata
build_node masklen af_inet n cidrdata =
    then_some (check_ip_cidr cidrdata n.ip)
      (λ found. unless_found cidrdata found (network_of masklen n.ip))
build_node masklen af_inet6 n cidrdata =
    then_some (check_ip6_cidr cidrdata n.ip6)
      (λ found. unless_found cidrdata found (network6_of masklen n.ip6))

-- The walk ends at the first node of another type.
unfoldable pub tree_buildcidr : Role → ℕ → List Node → List Cidr → Option (List Cidr)
tree_buildcidr type masklen [] cidrdata = some cidrdata
tree_buildcidr type masklen (n ∷ ns) cidrdata =
    if wanted type n
    then then_some (build_node masklen n.family n cidrdata)
        (λ cs. tree_buildcidr type masklen ns cs)
    else some cidrdata

unfoldable pub in_cidrdata : Family → Node → List Cidr → Option Bool
in_cidrdata af_unspec n cidrdata = some false
in_cidrdata af_inet n cidrdata = check_ip_cidr cidrdata n.ip
in_cidrdata af_inet6 n cidrdata = check_ip6_cidr cidrdata n.ip6

unfoldable pub tree_checkincidr : Role → List Node → List Cidr → Option Bool
tree_checkincidr type [] cidrdata = some false
tree_checkincidr type (n ∷ ns) cidrdata =
    let rest = tree_checkincidr type ns cidrdata in
    if wanted type n
    then then_some (in_cidrdata n.family n cidrdata) (λ found. if found then some true else rest)
    else some false

-- `mymask`, and as many turns as the loop has left. The results are the mask length or 0, the tree
-- and `options->cidrdata`.
unfoldable pub process_loop :
    (R : RbTree) → (ℕ → ℕ → Bool) → ℕ → ℕ → R.Tree → List Cidr → Option (ℕ × R.Tree × List Cidr)
process_loop R at_least zero mymask t cidrdata = some (0, t, cidrdata)
process_loop R at_least (suc turns) mymask t cidrdata =
    let calculated = tree_calculate R at_least t in
    then_some (tree_buildcidr dir_server mymask (R.nodes t) cidrdata) (λ cs.
      then_some (tree_checkincidr dir_client (R.nodes calculated) cs) (λ found.
        if found
        then process_loop R at_least turns (mymask + 1) calculated []
        else some (mymask, calculated, cs)))

unfoldable pub process_tree :
    (R : RbTree) → (ℕ → ℕ → Bool) → ℕ → ℕ → R.Tree → List Cidr → Option (ℕ × R.Tree × List Cidr)
process_tree R at_least max_mask min_mask t cidrdata =
    process_loop R at_least (min_mask + 1 - max_mask) max_mask t cidrdata
