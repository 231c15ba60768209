-- ===== src/Tree/Tests.antt =====
-- The macros as a list of nodes, and hosts of two packets.
use Prim.Native.Nat.{Ordering}
use tcpreplay.Prelude.{
  ℕ, ◌*◌, ◌≡◌, refl, arith, Bool, List, [], ◌∷◌, Option, none, some, ltb, leb, if◌then◌else◌, map,
  ap, ◌∙◌,
}
use tcpreplay.Cache.{s2c}
use tcpreplay.Cidr.{Family, af_inet}
use tcpreplay.Tree.{
  dir_client, dir_server, Node, tree_comp, comp_addresses, RbTree, new_tree, check_ip6_tree,
  family_number,
}
use tcpreplay.Tree.Counts.{is_eq, seen, verdict}
use tcpreplay.Tree.Hosts.{check_ip6_tree_same}
use tcpreplay.Tree.Router.{process_tree}
use tcpreplay.Tree.Router.Laws.{first_is_client, process_tree_lem}

-- The first node that the key is equal to.
find_in : List Node → Node → Option Node
find_in [] k = none
find_in (n ∷ ns) k = if is_eq (tree_comp k n) then some n else find_in ns k

change_in : List Node → Node → (Node → Node) → List Node
change_in [] k f = []
change_in (n ∷ ns) k f = if is_eq (tree_comp k n) then f n ∷ ns else n ∷ change_in ns k f

abbrev listed : RbTree
listed = record {
  Tree = List Node;
  nodes = (λ t. t);
  each = map;
  find = find_in;
  insert = (λ t n. n ∷ t);
  change = change_in;
}

by_comp_in :
    (t : List Node) (k q : Node)
    → ((n : Node) → tree_comp k n ≡ tree_comp q n)
    → find_in t k ≡ find_in t q
unfolding find_in
by_comp_in [] k q e = refl
by_comp_in (n ∷ t) k q e =
    ap (λ o. if is_eq o then some n else find_in t k) (e n)
    ∙ ap (λ r. if is_eq (tree_comp q n) then some n else r) (by_comp_in t k q e)

comp_with : Family → Family → Node → Node → Option Ordering
comp_with f g k n =
    if ltb (family_number g) (family_number f)
    then some Ordering.gt
    else if ltb (family_number f) (family_number g)
    then some Ordering.lt
    else comp_addresses f k n

-- 10.0.0.1 opens a connection, and 10.0.0.2 answers.
abbrev caller : Node
caller = record new_tree { family = af_inet; ip = 0x0100000a; role = dir_client }

abbrev callee : Node
callee = record new_tree { family = af_inet; ip = 0x0200000a; role = dir_server }

-- With a ratio of 2.
abbrev twice : ℕ → ℕ → Bool
twice s c = leb (c * 2) s

answer : verdict dir_client twice (seen 0x0200000a (caller ∷ callee ∷ []) none) ≡ some s2c
unfolding seen
answer = refl

check_ip6_tree_same_example :
    check_ip6_tree listed dir_client (callee ∷ []) (0xfe ∷ 0x80 ∷ [])
    ≡ check_ip6_tree listed dir_client (callee ∷ []) (0x20 ∷ 0x01 ∷ [])
check_ip6_tree_same_example =
    check_ip6_tree_same listed by_comp_in dir_client (callee ∷ []) (0xfe ∷ 0x80 ∷ [])
      (0x20 ∷ 0x01 ∷ [])

process_tree_lem_example :
    (t' : List Node) × (process_tree listed twice 8 30 (callee ∷ caller ∷ []) []
      ≡ some ((if first_is_client twice (callee ∷ caller ∷ []) then 0 else 8), t', []))
process_tree_lem_example =
    process_tree_lem listed (λ f t. refl) twice 8 30 (callee ∷ caller ∷ []) (omega arith)
      ((λ e. cc e), ((λ e. cc e), tt))
