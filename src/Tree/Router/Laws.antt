-- ===== src/Tree/Router/Laws.antt =====
-- With no networks to start with, the router mode builds none.
use tcpreplay.Prelude.{
  ℕ, zero, suc, ◌+◌, ◌-◌, ◌≤◌, ◌≡◌, ◌≢◌, refl, sym, arith, Bool, true, false, List, [], ◌∷◌, some,
  if◌then◌else◌, Bool-cases, inl, inr, map, All, ap, subst, ◌∙◌,
}
use tcpreplay.Cidr.{Family, af_unspec, af_inet, af_inet6, check_ip_cidr, check_ip6_cidr}
use tcpreplay.Tree.{
  Role, dir_client, dir_server, Node, same_role, RbTree, calculated, tree_calculate,
}
use tcpreplay.Tree.Router.{
  wanted, build_node, tree_buildcidr, in_cidrdata, tree_checkincidr, process_loop, process_tree,
}

build_node_none : (masklen : ℕ) (f : Family) (n : Node) → build_node masklen f n [] ≡ some []
unfolding build_node check_ip_cidr check_ip6_cidr
build_node_none masklen af_unspec n = refl
build_node_none masklen af_inet n = refl
build_node_none masklen af_inet6 n = refl

tree_buildcidr_none :
    (type : Role) (masklen : ℕ) (ns : List Node) → tree_buildcidr type masklen ns [] ≡ some []
unfolding tree_buildcidr
tree_buildcidr_none type masklen [] = refl
tree_buildcidr_none type masklen (n ∷ ns) = elim (Bool-cases (wanted type n)) [
  | inl w ↦ rw w (rw (build_node_none masklen n.family n) (tree_buildcidr_none type masklen ns))
  | inr w ↦ rw w refl
]

-- Every node is of a host.
abbrev pub HasAddress : Node → Type 0
HasAddress n = n.family ≢ af_unspec

in_cidrdata_none : (f : Family) (n : Node) → f ≢ af_unspec → in_cidrdata f n [] ≡ some true
unfolding in_cidrdata check_ip_cidr check_ip6_cidr
in_cidrdata_none af_unspec n h = absurd (h refl)
in_cidrdata_none af_inet n h = refl
in_cidrdata_none af_inet6 n h = refl

-- Is the first node a client by the counts?
abbrev pub first_is_client : (ℕ → ℕ → Bool) → List Node → Bool
first_is_client at_least [] = false
first_is_client at_least (n ∷ ns) = same_role dir_client (calculated at_least n).role

tree_checkincidr_none :
    (at_least : ℕ → ℕ → Bool) (ns : List Node)
    → All HasAddress ns
    → tree_checkincidr dir_client (map (calculated at_least) ns) []
      ≡ some (first_is_client at_least ns)
unfolding tree_checkincidr
tree_checkincidr_none at_least [] u = refl
tree_checkincidr_none at_least (n ∷ ns) (a, u) =
    elim (Bool-cases (same_role dir_client (calculated at_least n).role)) [
      | inl c ↦ rw c (rw (in_cidrdata_none n.family (calculated at_least n) a) refl)
      | inr c ↦ rw c refl
    ]

-- The types by the counts do not change when they are calculated again.
calculated_again :
    (at_least : ℕ → ℕ → Bool) (ns : List Node)
    → All HasAddress ns
    → All HasAddress (map (calculated at_least) ns)
      × (first_is_client at_least (map (calculated at_least) ns) ≡ first_is_client at_least ns)
calculated_again at_least [] u = (tt, refl)
calculated_again at_least (n ∷ ns) (a, u) = ((a, (calculated_again at_least ns u).0), refl)

module _ (R : RbTree)
    (each_law : (f : Node → Node) (t : R.Tree) → R.nodes (R.each f t) ≡ map f (R.nodes t))
    (at_least : ℕ → ℕ → Bool) where
  checked :
      (t : R.Tree)
      → All HasAddress (R.nodes t)
      → tree_checkincidr dir_client (R.nodes (R.each (calculated at_least) t)) []
        ≡ some (first_is_client at_least (R.nodes t))
  checked t hosts =
      rw (each_law (calculated at_least) t) (tree_checkincidr_none at_least (R.nodes t) hosts)

  -- A turn with a first node that is no client is the last.
  no_client :
      (turns mask : ℕ) (t : R.Tree)
      → All HasAddress (R.nodes t)
      → first_is_client at_least (R.nodes t) ≡ false
      → process_loop R at_least (suc turns) mask t []
        ≡ some (mask, R.each (calculated at_least) t, [])
  unfolding process_loop tree_calculate
  no_client turns mask t hosts e =
      rw (tree_buildcidr_none dir_server mask (R.nodes t)) (rw (checked t hosts) (rw e refl))

  -- With a first node that is a client, the loop runs through all mask lengths.
  only_clients :
      (turns mask : ℕ) (t : R.Tree)
      → All HasAddress (R.nodes t)
      → first_is_client at_least (R.nodes t) ≡ true
      → (t' : R.Tree) × (process_loop R at_least turns mask t [] ≡ some (0, t', []))
  unfolding process_loop tree_calculate
  only_clients zero mask t hosts e = (t, refl)
  only_clients (suc turns) mask t hosts e =
      let again = calculated_again at_least (R.nodes t) hosts in
      let u = R.each (calculated at_least) t in
      let rest =
        only_clients turns (mask + 1) u
          (subst (λ l. All HasAddress l) (sym (each_law (calculated at_least) t)) again.0)
          (ap (λ l. first_is_client at_least l) (each_law (calculated at_least) t) ∙ again.1 ∙ e) in
      (
        rest.0,
        rw (tree_buildcidr_none dir_server mask (R.nodes t)) (rw (checked t hosts) (rw e rest.1)),
      )

  -- A tree of hosts, a range of mask lengths that is not empty, and no networks to start with. The
  -- router mode builds no network for any of the mask lengths: it ends with none, and its result is
  -- the first mask length, or 0 if the first node of the tree is a client by its counts.
  pub process_tree_lem :
      (max_mask min_mask : ℕ) (t : R.Tree)
      → max_mask ≤ min_mask
      → All HasAddress (R.nodes t)
      → (t' : R.Tree) × (process_tree R at_least max_mask min_mask t []
          ≡ some ((if first_is_client at_least (R.nodes t) then 0 else max_mask), t', []))
  unfolding process_tree
  process_tree_lem max_mask min_mask t h hosts =
      elim (Bool-cases (first_is_client at_least (R.nodes t))) [
        | inl e ↦
            (let r = only_clients (min_mask + 1 - max_mask) max_mask t hosts e in (r.0, rw e r.1))
        | inr e ↦
            (let turns : min_mask + 1 - max_mask ≡ suc (min_mask - max_mask) = omega arith in
              (
                R.each (calculated at_least) t,
                rw e (rw turns (no_client (min_mask - max_mask) max_mask t hosts e)),
              ))
      ]
