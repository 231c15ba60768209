-- ===== src/Tree/Hosts.antt =====
-- What the tree counts for each host, and what it answers.
use Prim.Native.Nat.{Ordering}
use tcpreplay.Prelude.{ℕ, zero, suc, ◌+◌, ◌≡◌, refl, arith, List, some, ap}
use tcpreplay.Cidr.{af_inet6}
use tcpreplay.Tree.{
  Role, Node, word_order, word32, ipv6_cmp_loop, ipv6_cmp, comp_addresses, tree_comp, RbTree,
  new_tree, answer_for, check_ip6_tree,
}

-- A word compares equal to itself, and so does an address.
word_order_self : (a : ℕ) → word_order a a ≡ some Ordering.eq
unfolding word_order
word_order_self a = ground arith

ipv6_cmp_loop_self : (n i : ℕ) (a : List ℕ) → ipv6_cmp_loop n i a a ≡ some Ordering.eq
unfolding ipv6_cmp_loop
ipv6_cmp_loop_self zero i a = refl
ipv6_cmp_loop_self (suc n) i a = rw (word_order_self (word32 a i)) (ipv6_cmp_loop_self n (i + 4) a)

-- A node of any family against an IPv6 address: the address plays no part.
comp_ipv6 :
    (a b : List ℕ) (n : Node)
    → tree_comp (record new_tree { family = af_inet6; ip6 = a }) n
      ≡ tree_comp (record new_tree { family = af_inet6; ip6 = b }) n
unfolding tree_comp comp_addresses ipv6_cmp
comp_ipv6 a b n = rw (ipv6_cmp_loop_self 4 0 a) (rw (ipv6_cmp_loop_self 4 0 b) refl)

-- A search that goes by the comparison alone. Then all IPv6 addresses get the same answer, whatever
-- hosts are in the tree: the comparison of IPv6 nodes compares the first one with itself.
pub check_ip6_tree_same :
    (R : RbTree)
    → ((t : R.Tree) (k q : Node)
        → ((n : Node) → tree_comp k n ≡ tree_comp q n)
        → R.find t k ≡ R.find t q)
    → (mode : Role) (t : R.Tree) (a b : List ℕ)
    → check_ip6_tree R mode t a ≡ check_ip6_tree R mode t b
unfolding check_ip6_tree
check_ip6_tree_same R by_comp mode t a b =
    ap (λ o. answer_for mode o) (by_comp t _ _ (comp_ipv6 a b))
