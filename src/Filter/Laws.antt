-- ===== src/Filter/Laws.antt =====
-- What the filter sends, in terms of the networks that the addresses lie in.
use tcpreplay.Prelude.{
  ℕ, ◌+◌, ◌≡◌, ◌↔◌, ◌⊎◌, refl, Bool, true, false, List, ◌∷◌, Option, some, inl, inr, All, Any,
  IsBytes,
}
use tcpreplay.Cidr.{Cidr}
use tcpreplay.Cidr.V4.{IsWellFormed, InNetwork, check_ip_cidr_iff}
use tcpreplay.Cidr.V6.{InNetwork6, check_ip6_cidr_iff}
use tcpreplay.Filter.{
  Verdict, send, dont_send, xx_source, xx_dest, xx_both, xx_either, xx_exclude, when, unless,
  and_then, or_else, by_mode, Ends, process_xx_by_cidr_ipv4, process_xx_by_cidr_ipv6,
}

-- The four modes by address.
pub data Mode : Type 0 where
  source dest both either : Mode

abbrev pub number : Mode → ℕ
number source = xx_source
number dest = xx_dest
number both = xx_both
number either = xx_either

-- Which addresses a mode asks for, of the two statements about source and destination.
abbrev pub Asks : Mode → Type 0 → Type 0 → Type 0
Asks source S D = S
Asks dest S D = D
Asks both S D = S × D
Asks either S D = S ⊎ D

-- A test that is defined and decides.
abbrev Decided : Option Bool → Type 0 → Type 0
Decided t P = (b : Bool) × (t ≡ some b) × ((b ≡ true) ↔ P)

abbrev asked : Mode → Option Bool → Option Bool → Option Bool
asked source src dst = src
asked dest src dst = dst
asked both src dst = and_then dst src
asked either src dst = or_else dst src

include_lem :
    (m : Mode) (src dst : Option Bool) → by_mode (number m) src dst ≡ when (asked m src dst)
unfolding by_mode
include_lem source src dst = refl
include_lem dest src dst = refl
include_lem both src dst = refl
include_lem either src dst = refl

exclude_lem :
    (m : Mode) (src dst : Option Bool)
    → by_mode (number m + xx_exclude) src dst ≡ unless (asked m src dst)
unfolding by_mode
exclude_lem source src dst = refl
exclude_lem dest src dst = refl
exclude_lem both src dst = refl
exclude_lem either src dst = refl

module _ (S D : Type 0) where
  both_decided :
      (a b : Bool)
      → ((a ≡ true) ↔ S)
      → ((b ≡ true) ↔ D)
      → Decided (and_then (some b) (some a)) (S × D)
  both_decided true true i j = (true, refl, ((λ t. (i.0 refl, j.0 refl)), (λ p. refl)))
  both_decided false true i j = (false, refl, ((λ t. cc), (λ p. i.1 p.0)))
  both_decided a false i j = (false, refl, ((λ t. cc), (λ p. j.1 p.1)))

  either_decided :
      (a b : Bool)
      → ((a ≡ true) ↔ S)
      → ((b ≡ true) ↔ D)
      → Decided (or_else (some b) (some a)) (S ⊎ D)
  either_decided a true i j = (true, refl, ((λ t. inr (j.0 refl)), (λ p. refl)))
  either_decided true false i j = (true, refl, ((λ t. inl (i.0 refl)), (λ p. refl)))
  either_decided false false i j = (false, refl, ((λ t. cc), neither))
    where
      neither : S ⊎ D → false ≡ true
      neither (inl s) = i.1 s
      neither (inr d) = j.1 d

  asked_decided :
      (m : Mode) (src dst : Option Bool)
      → Decided src S
      → Decided dst D
      → Decided (asked m src dst) (Asks m S D)
  asked_decided source src dst s d = s
  asked_decided dest src dst s d = d
  asked_decided both src dst (a, es, i) (b, ed, j) = rw (es, ed) (both_decided a b i j)
  asked_decided either src dst (a, es, i) (b, ed, j) = rw (es, ed) (either_decided a b i j)

-- The verdict is one of the two, by whether the statement holds.
abbrev pub Splits : Verdict → Verdict → Verdict → Type 0 → Type 0
Splits v if_so if_not P = ((v ≡ if_so) × P) ⊎ ((v ≡ if_not) × (¬ P))

when_splits : (P : Type 0) (t : Option Bool) → Decided t P → Splits (when t) send dont_send P
when_splits P t (true, e, i) = inl (rw e, i.0 refl)
when_splits P t (false, e, i) = inr (rw e, λ p. cc (i.1 p))

unless_splits : (P : Type 0) (t : Option Bool) → Decided t P → Splits (unless t) dont_send send P
unless_splits P t (true, e, i) = inl (rw e, i.0 refl)
unless_splits P t (false, e, i) = inr (rw e, λ p. cc (i.1 p))

by_mode_splits :
    (S D : Type 0) (m : Mode) (src dst : Option Bool)
    → Decided src S
    → Decided dst D
    → Splits (by_mode (number m) src dst) send dont_send (Asks m S D)
      × Splits (by_mode (number m + xx_exclude) src dst) dont_send send (Asks m S D)
by_mode_splits S D m src dst s d =
    let t = asked_decided S D m src dst s d in
    (
      rw (include_lem m src dst) (when_splits _ _ t),
      rw (exclude_lem m src dst) (unless_splits _ _ t),
    )

-- Over a list of well-formed entries that is not empty, an IPv4 packet is sent in an include mode
-- exactly when the addresses that the mode asks for lie in the IPv4 networks of the list, and in
-- the exclude mode exactly when they do not; the filter always decides. So of two addresses one of
-- which matches, the exclude mode sends the packet where both are asked for, and not where either is:
-- the manual of tcpprep has it the other way round.
pub process_xx_by_cidr_ipv4_lem :
    (m : Mode) (c : Cidr) (cs : List Cidr) (ip : Ends ℕ)
    → All IsWellFormed (c ∷ cs)
    → let P : Type 0 = Asks m (Any (InNetwork ip.src) (c ∷ cs)) (Any (InNetwork ip.dst) (c ∷ cs)) in
      Splits (process_xx_by_cidr_ipv4 (number m) (c ∷ cs) ip) send dont_send P
      × Splits (process_xx_by_cidr_ipv4 (number m + xx_exclude) (c ∷ cs) ip) dont_send send P
unfolding process_xx_by_cidr_ipv4
process_xx_by_cidr_ipv4_lem m c cs ip h =
    by_mode_splits _ _ m _ _ (check_ip_cidr_iff ip.src c cs h) (check_ip_cidr_iff ip.dst c cs h)

-- Over a list of well-formed entries that is not empty, and for addresses and networks of bytes, an
-- IPv6 packet is sent in an include mode exactly when the addresses that the mode asks for lie in
-- the IPv6 networks of the list, and in the exclude mode exactly when they do not; the filter
-- always decides.
pub process_xx_by_cidr_ipv6_lem :
    (m : Mode) (c : Cidr) (cs : List Cidr) (ip : Ends (List ℕ))
    → IsBytes ip.src
    → IsBytes ip.dst
    → All (λ d. IsWellFormed d × IsBytes d.network6) (c ∷ cs)
    → let P : Type 0 =
        Asks m (Any (InNetwork6 ip.src) (c ∷ cs)) (Any (InNetwork6 ip.dst) (c ∷ cs)) in
      Splits (process_xx_by_cidr_ipv6 (number m) (c ∷ cs) ip) send dont_send P
      × Splits (process_xx_by_cidr_ipv6 (number m + xx_exclude) (c ∷ cs) ip) dont_send send P
unfolding process_xx_by_cidr_ipv6
process_xx_by_cidr_ipv6_lem m c cs ip hs hd h =
    by_mode_splits _ _ m _ _ (check_ip6_cidr_iff ip.src c cs hs h)
      (check_ip6_cidr_iff ip.dst c cs hd h)
