-- ===== src/Tree.antt =====
-- The tree of hosts of src/tree.c, by which tcpprep's automatic modes tell clients from servers.
-- The red-black tree is the macros of lib/tree.h, which are a parameter.
pub mod Hosts
pub mod Counts
pub mod Router
pub mod Packets
pub mod Capture
mod Tests
use Prim.Native.Nat.{compare, Ordering}
use tcpreplay.Prelude.{
  ℕ, zero, suc, ◌+◌, ◌-◌, ◌*◌, ◌/◌, ◌%◌, ◌^◌, Bool, true, false, not, List, [], ◌∷◌, Option, none,
  some, ltb, leb, ◌==◌, ◌&&◌, ◌||◌, if◌then◌else◌, u32, ℤ, pos, map, replicate,
}
use tcpreplay.Cache.{Dir, error, c2s, s2c}
use tcpreplay.Cidr.{
  Family, af_unspec, af_inet, af_inet6, Cidr, check_ip_cidr, check_ip6_cidr, add_cidr, byte,
  keep_high, top_bits,
}
use tcpreplay.Edit.Map.{then_some}
use tcpreplay.Edit.V6.{copy_bytes, put_byte}

-- `direction_e`
pub data Role : Type 0 where
  dir_unknown dir_client dir_server dir_any : Role

-- `tcpr_tree_t`; of the union the field that the family selects is used.
pub record Node : Type 0 where
  pub family : Family
  pub ip : ℕ
  pub ip6 : List ℕ
  pub server_cnt : ℕ
  pub client_cnt : ℕ
  pub role : Role

abbrev pub same_role : Role → Role → Bool
same_role dir_unknown dir_unknown = true
same_role dir_client dir_client = true
same_role dir_server dir_server = true
same_role dir_any dir_any = true
same_role a b = false

-- A word as a signed 32-bit number, moved up by 2 ^ 31.
abbrev pub biased : ℕ → ℕ
biased w = (w + 2 ^ 31) % 2 ^ 32

-- The sign of `(int)a - (int)b`; `none` where that overflows.
unfoldable pub word_order : ℕ → ℕ → Option Ordering
word_order a b =
    if biased a == biased b
    then some Ordering.eq
    else if ltb (biased b) (biased a)
    then (if ltb (biased a - biased b) (2 ^ 31) then some Ordering.gt else none)
    else if leb (biased b - biased a) (2 ^ 31)
    then some Ordering.lt
    else none

abbrev pub or_later : Ordering → Option Ordering → Option Ordering
or_later Ordering.eq later = later
or_later Ordering.lt later = some Ordering.lt
or_later Ordering.gt later = some Ordering.gt

abbrev pub word32 : List ℕ → ℕ → ℕ
word32 addr i =
    byte addr i
    + byte addr (i + 1) * 2 ^ 8
    + byte addr (i + 2) * 2 ^ 16
    + byte addr (i + 3) * 2 ^ 24

-- The loop from word `i` on, `n` words long.
unfoldable pub ipv6_cmp_loop : ℕ → ℕ → List ℕ → List ℕ → Option Ordering
ipv6_cmp_loop zero i a b = some Ordering.eq
ipv6_cmp_loop (suc n) i a b =
    let later = ipv6_cmp_loop n (i + 4) a b in
    then_some (word_order (word32 a i) (word32 b i)) (λ o. or_later o later)

unfoldable pub ipv6_cmp : List ℕ → List ℕ → Option Ordering
ipv6_cmp a b = ipv6_cmp_loop 4 0 a b

-- The numbers of the families grow in this order.
abbrev pub family_number : Family → ℕ
family_number af_unspec = 0
family_number af_inet = 2
family_number af_inet6 = 10

-- Two nodes of one family.
unfoldable pub comp_addresses : Family → Node → Node → Option Ordering
comp_addresses af_inet t1 t2 = some (compare t1.ip t2.ip)
comp_addresses af_inet6 t1 t2 = ipv6_cmp t1.ip6 t1.ip6
comp_addresses af_unspec t1 t2 = some Ordering.eq

unfoldable pub tree_comp : Node → Node → Option Ordering
tree_comp t1 t2 =
    if ltb (family_number t2.family) (family_number t1.family)
    then some Ordering.gt
    else if ltb (family_number t1.family) (family_number t2.family)
    then some Ordering.lt
    else comp_addresses t1.family t1 t2

-- What the code uses of the macros: `RB_FOREACH` as the list of the nodes and as a change of each,
-- `RB_FIND`, `RB_INSERT`, and a change of the node that was found, through its pointer.
pub record RbTree : Type 1 where
  pub Tree : Type 0
  pub nodes : Tree → List Node
  pub each : (Node → Node) → Tree → Tree
  pub find : Tree → Node → Option Node
  pub insert : Tree → Node → Tree
  pub change : Tree → Node → (Node → Node) → Tree

-- One more packet of the host in this role.
abbrev pub counted : Role → Node → Node
counted dir_server n = record n { server_cnt = n.server_cnt + 1 }
counted dir_client n = record n { client_cnt = n.client_cnt + 1 }
counted dir_unknown n = n
counted dir_any n = n

abbrev pub add_found : (R : RbTree) → R.Tree → Node → Option Node → R.Tree
add_found R t new none = R.insert t (counted new.role new)
add_found R t new (some old) = R.change t new (counted new.role)

unfoldable pub add_tree_node : (R : RbTree) → R.Tree → Node → R.Tree
add_tree_node R t new = add_found R t new (R.find t new)

-- `at_least` is the comparison of doubles, `server_cnt >= client_cnt * ratio`.
unfoldable pub role_by : (ℕ → ℕ → Bool) → ℕ → ℕ → Role
role_by at_least server_cnt client_cnt =
    if ltb 0 server_cnt || ltb 0 client_cnt
    then (if at_least server_cnt client_cnt then dir_server else dir_client)
    else dir_unknown

abbrev pub calculated : (ℕ → ℕ → Bool) → Node → Node
calculated at_least n = record n { role = role_by at_least n.server_cnt n.client_cnt }

unfoldable pub tree_calculate : (R : RbTree) → (ℕ → ℕ → Bool) → R.Tree → R.Tree
tree_calculate R at_least t = R.each (calculated at_least) t

-- `new_tree`
abbrev pub new_tree : Node
new_tree = record {
  family = af_unspec;
  ip = 0;
  ip6 = replicate 16 0;
  server_cnt = 0;
  client_cnt = 0;
  role = dir_unknown;
}

abbrev pub mode_answer : Role → Dir
mode_answer dir_server = s2c
mode_answer dir_client = c2s
mode_answer dir_unknown = error
mode_answer dir_any = error

abbrev pub role_answer : Role → Role → Dir
role_answer mode dir_server = s2c
role_answer mode dir_client = c2s
role_answer mode dir_unknown = mode_answer mode
role_answer mode dir_any = mode_answer mode

-- `none` is the exit on an unknown host.
unfoldable pub answer_for : Role → Option Node → Option Dir
answer_for mode none = if same_role mode dir_unknown then none else some (mode_answer mode)
answer_for mode (some n) = some (role_answer mode n.role)

unfoldable pub check_ip_tree : (R : RbTree) → Role → R.Tree → ℕ → Option Dir
check_ip_tree R mode t ip =
    answer_for mode (R.find t (record new_tree { family = af_inet; ip = ip }))

unfoldable pub check_ip6_tree : (R : RbTree) → Role → R.Tree → List ℕ → Option Dir
check_ip6_tree R mode t addr =
    answer_for mode (R.find t (record new_tree { family = af_inet6; ip6 = addr }))

-- The first pass over the packets: what `packet2tree` makes of each is added to the tree.
unfoldable pub add_all : (R : RbTree) → R.Tree → List Node → R.Tree
add_all R t [] = t
add_all R t (n ∷ ns) = add_all R (add_tree_node R t n) ns
