-- ===== src/Tree/Counts.antt =====
-- The tree counts for each IPv4 host the packets in each role, and answers by the counts.
use Prim.Native.Nat.{compare, Ordering}
use tcpreplay.Prelude.{
  ℕ, ◌+◌, ◌≡◌, refl, arith, Bool, true, false, List, [], ◌∷◌, Option, none, some, ◌==◌,
  if◌then◌else◌, subst, ==_iff,
}
use tcpreplay.Cache.{Dir, error, c2s, s2c}
use tcpreplay.Cidr.{Family, af_unspec, af_inet, af_inet6}
use tcpreplay.Tree.{
  Role, dir_unknown, dir_client, dir_server, dir_any, Node, comp_addresses, tree_comp, RbTree,
  counted, new_tree, role_answer, answer_for, role_by, calculated,
}

-- The key that `check_ip_tree` looks for.
abbrev pub host : ℕ → Node
host ip = record new_tree { family = af_inet; ip = ip }

abbrev pub is_eq : Option Ordering → Bool
is_eq none = false
is_eq (some Ordering.eq) = true
is_eq (some Ordering.lt) = false
is_eq (some Ordering.gt) = false

-- What the macros promise for the search of an IPv4 host: it goes by the comparison alone, a node
-- that was inserted or changed is found by the keys that are equal to it, and the search for other
-- keys is not disturbed.
pub record RbLaws (R : RbTree) : Type 0 where
  pub by_comp :
      (t : R.Tree) (k q : Node)
      → ((n : Node) → tree_comp k n ≡ tree_comp q n)
      → R.find t k ≡ R.find t q
  pub inserted :
      (t : R.Tree) (k : Node) (ip : ℕ)
      → R.find t k ≡ none
      → R.find (R.insert t k) (host ip)
        ≡ (if is_eq (tree_comp (host ip) k) then some k else R.find t (host ip))
  pub changed :
      (t : R.Tree) (k old : Node) (ip : ℕ) (r : Role)
      → R.find t k ≡ some old
      → R.find (R.change t k (counted r)) (host ip)
        ≡ (if is_eq (tree_comp (host ip) k) then some (counted r old) else R.find t (host ip))
  pub each_found :
      (t : R.Tree) (at_least : ℕ → ℕ → Bool) (ip : ℕ) (n : Node)
      → R.find t (host ip) ≡ some n
      → R.find (R.each (calculated at_least) t) (host ip) ≡ some (calculated at_least n)
  pub each_missing :
      (t : R.Tree) (at_least : ℕ → ℕ → Bool) (ip : ℕ)
      → R.find t (host ip) ≡ none
      → R.find (R.each (calculated at_least) t) (host ip) ≡ none

-- Is the packet from this IPv4 host?
abbrev pub from_host : ℕ → Family → ℕ → Bool
from_host ip af_inet source = ip == source
from_host ip af_unspec source = false
from_host ip af_inet6 source = false

-- The counts as server and as client.
abbrev pub bump : Role → ℕ × ℕ → ℕ × ℕ
bump dir_server (s, c) = (s + 1, c)
bump dir_client (s, c) = (s, c + 1)
bump dir_unknown (s, c) = (s, c)
bump dir_any (s, c) = (s, c)

abbrev pub bump_or_start : Role → Option (ℕ × ℕ) → Option (ℕ × ℕ)
bump_or_start r none = some (bump r (0, 0))
bump_or_start r (some c) = some (bump r c)

-- How often an IPv4 host sends a packet in each role; `none` for a host that sends none.
unfoldable pub seen : ℕ → List Node → Option (ℕ × ℕ) → Option (ℕ × ℕ)
seen ip [] start = start
seen ip (n ∷ ns) start =
    seen ip ns (if from_host ip n.family n.ip then bump_or_start n.role start else start)

-- The direction that the mode gives to a host of which nothing is known.
abbrev pub guess : Role → Dir
guess dir_server = s2c
guess dir_client = c2s
guess dir_unknown = error
guess dir_any = error

-- The answer by the counts alone: a host that sends as a server often enough is one, any other that
-- has sent in a role is a client, and the rest is up to the mode; `none` is the exit.
abbrev pub verdict : Role → (ℕ → ℕ → Bool) → Option (ℕ × ℕ) → Option Dir
verdict dir_unknown at_least none = none
verdict dir_server at_least none = some s2c
verdict dir_client at_least none = some c2s
verdict dir_any at_least none = some error
verdict mode at_least (some (s, c)) =
    if s + c == 0 then some (guess mode) else if at_least s c then some s2c else some c2s

-- What the code answers by the counts.
answered : Role → (ℕ → ℕ → Bool) → Option (ℕ × ℕ) → Option Dir
answered mode at_least none = answer_for mode none
answered mode at_least (some (s, c)) = some (role_answer mode (role_by at_least s c))

abbrev pub tally : Option Node → Option (ℕ × ℕ)
tally none = none
tally (some n) = some (n.server_cnt, n.client_cnt)

pub is_eq-compare : (a b : ℕ) → is_eq (some (compare a b)) ≡ (a == b)
is_eq-compare a b = ground arith

pub comp_host :
    (ip : ℕ) (f : Family) (n : Node)
    → n.family ≡ f
    → is_eq (tree_comp (host ip) n) ≡ from_host ip n.family n.ip
unfolding tree_comp comp_addresses
comp_host ip af_unspec n e = rw e refl
comp_host ip af_inet n e = rw e (is_eq-compare ip n.ip)
comp_host ip af_inet6 n e = rw e refl

pub counted_comp :
    (ip : ℕ) (r : Role) (n : Node) → tree_comp (host ip) (counted r n) ≡ tree_comp (host ip) n
unfolding tree_comp comp_addresses
counted_comp ip dir_server n = refl
counted_comp ip dir_client n = refl
counted_comp ip dir_unknown n = refl
counted_comp ip dir_any n = refl

-- A node that is equal to the key of a host compares as the key does.
pub same_comp :
    (ip : ℕ) (k : Node) (f : Family)
    → k.family ≡ f
    → from_host ip k.family k.ip ≡ true
    → (n : Node) → tree_comp (host ip) n ≡ tree_comp k n
unfolding tree_comp comp_addresses
same_comp ip k af_unspec e h n =
    let no : false ≡ true = subst (λ g. from_host ip g k.ip ≡ true) e h in cc no
same_comp ip k af_inet e h n =
    let same : ip ≡ k.ip = (==_iff ip k.ip).0 (subst (λ g. from_host ip g k.ip ≡ true) e h) in
    rw e (rw same refl)
same_comp ip k af_inet6 e h n =
    let no : false ≡ true = subst (λ g. from_host ip g k.ip ≡ true) e h in cc no

-- A node as `packet2tree` makes it: nothing is counted yet.
abbrev pub IsFresh : Node → Type 0
IsFresh n = (n.server_cnt ≡ 0) × (n.client_cnt ≡ 0)
