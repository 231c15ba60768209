-- ===== src/Prep/Cidrs.antt =====
-- The mode by networks, with a filter by address: which packets are sent, and out of which interface.
use tcpreplay.Prelude.{
  ℕ, ◌+◌, ◌≡◌, ◌↔◌, ◌⊎◌, refl, Bool, true, false, List, ◌∷◌, Option, some, inl, inr, All, Any, ap,
  sym, subst, ◌∙◌,
}
use tcpreplay.Cache.{c2s, s2c, nosend, send_flag, dont_send}
use tcpreplay.Cidr.{Cidr, check_ip_cidr}
use tcpreplay.Cidr.V4.{IsWellFormed, InNetwork, check_ip_cidr_iff}
use tcpreplay.Filter.{Verdict, Ends as Both, xx_exclude, process_xx_by_cidr_ipv4}
use tcpreplay.Filter.Laws.{Splits, Asks, Mode as Asked, number, process_xx_by_cidr_ipv4_lem}
use tcpreplay.Packet.{Walk, value, then_with}
use tcpreplay.L2.{get_ipv4}
use tcpreplay.Tree.{RbTree}
use tcpreplay.Tree.Packets.{le32_at}
use tcpreplay.Prep.{
  Options, cidr_mode, Act, cache, v4, find_ip, left_out, reversed, verdict_of, by_cidr, by_test,
}
use tcpreplay.Prep.Run.{process_packet, at_ip, by_mode, unless_filtered, is_mac}

-- The header that `get_ipv4` finds, with the addresses that it holds.
abbrev pub HasAddresses : Options → List ℕ → ℕ → ℕ → ℕ → Type 0
HasAddresses o packet p src dst =
    (get_ipv4 packet o.datalink ≡ value (some p))
    × (le32_at packet (p + 12) ≡ value src)
    × (le32_at packet (p + 16) ≡ value dst)

-- The addresses lie in the networks as the mode of the filter asks.
abbrev pub AsksFor : Asked → List Cidr → ℕ → ℕ → Type 0
AsksFor m cs src dst = Asks m (Any (InNetwork src) cs) (Any (InNetwork dst) cs)

module _ (R : RbTree) (t : R.Tree) (o : Options) (packet : List ℕ) (p src dst : ℕ) where
  at_header :
      (num : ℕ)
      → left_out o num ≡ false
      → is_mac o.mode ≡ false
      → get_ipv4 packet o.datalink ≡ value (some p)
      → process_packet R t o num packet
        ≡ then_with
            (verdict_of o packet o.xx_cidr (v4 p))
            (unless_filtered (by_mode R t o packet (v4 p) o.mode))
  unfolding process_packet find_ip at_ip
  at_header num l m g = rw (l, m, g)

  by_filter :
      (c : Cidr) (cs : List Cidr)
      → le32_at packet (p + 12) ≡ value src
      → le32_at packet (p + 16) ≡ value dst
      → verdict_of o packet (c ∷ cs) (v4 p)
        ≡ value (process_xx_by_cidr_ipv4 o.xx_mode (c ∷ cs) (record { src = src; dst = dst }))
  unfolding verdict_of
  by_filter c cs s d = rw (s, d)

  by_source :
      le32_at packet (p + 12) ≡ value src
      → by_mode R t o packet (v4 p) cidr_mode ≡ value (by_test o (check_ip_cidr o.cidrdata src))
  unfolding by_mode by_cidr
  by_source s = rw s

-- What a packet gets: left out, or sent primary or secondary, by two statements about it.
abbrev pub Gets : {T : Type 0} → Walk (Act T) → Bool → Type 0 → Type 0 → Type 0
Gets w reverse Kept Inside =
    ((w ≡ value (cache dont_send nosend)) × ¬ Kept)
    ⊎ (Kept
        × (((w ≡ value (cache send_flag (reversed reverse c2s))) × Inside)
            ⊎ ((w ≡ value (cache send_flag (reversed reverse s2c))) × ¬ Inside)))

sent_by :
    {T : Type 0} (o : Options) (Inside : Type 0) (w : Walk (Act T)) (test : Option Bool)
    → w ≡ value (by_test o test)
    → (b : Bool) × (test ≡ some b) × ((b ≡ true) ↔ Inside)
    → ((w ≡ value (cache send_flag (reversed o.reverse c2s))) × Inside)
      ⊎ ((w ≡ value (cache send_flag (reversed o.reverse s2c))) × ¬ Inside)
sent_by o Inside w test e (true, d, i) = inl (e ∙ ap (λ u. value (by_test o u)) d, i.0 refl)
sent_by o Inside w test e (false, d, i) = inr (e ∙ ap (λ u. value (by_test o u)) d, λ x. cc (i.1 x))

gets_by :
    {T : Type 0} (o : Options) (Kept Inside : Type 0) (w k : Walk (Act T)) (v : Verdict)
    (test : Option Bool)
    → w ≡ unless_filtered k v
    → Splits v Verdict.send Verdict.dont_send Kept
    → k ≡ value (by_test o test)
    → (b : Bool) × (test ≡ some b) × ((b ≡ true) ↔ Inside)
    → Gets w o.reverse Kept Inside
gets_by o Kept Inside w k v test e (inl (s, kept)) f d =
    inr (kept, sent_by o Inside w test (e ∙ ap (unless_filtered k) s ∙ f) d)
gets_by o Kept Inside w k v test e (inr (s, kept)) f d = inl (e ∙ ap (unless_filtered k) s, kept)

exclude_splits :
    (P : Type 0) (v : Verdict)
    → Splits v Verdict.dont_send Verdict.send P
    → Splits v Verdict.send Verdict.dont_send (¬ P)
exclude_splits P v (inl (e, p)) = inr (e, λ n. n p)
exclude_splits P v (inr (e, n)) = inl (e, n)

-- The mode by networks, with networks to split by and networks to filter by, all well-formed, for a
-- packet whose number is not left out, with the IPv4 header that `get_ipv4` finds. With an include
-- filter, a packet whose addresses do not lie as the filter asks is recorded as not sent; any other
-- is recorded as sent, primary if its source lies in one of the networks to split by, and secondary
-- if not, or the other way round with REVERSE. With an exclude filter, the packets whose addresses
-- lie as the filter asks are those not sent. Primary is the traffic of clients: the manual of tcpprep
-- calls a source that lies in one of the networks a server.
pub process_packet-cidr_mode :
    (R : RbTree) (t : R.Tree) (o : Options) (num : ℕ) (packet : List ℕ) (p src dst : ℕ) (m : Asked)
    (f : Cidr) (fs : List Cidr) (c : Cidr) (cs : List Cidr)
    → o.mode ≡ cidr_mode
    → left_out o num ≡ false
    → o.xx_cidr ≡ f ∷ fs
    → o.cidrdata ≡ c ∷ cs
    → All IsWellFormed (f ∷ fs)
    → All IsWellFormed (c ∷ cs)
    → HasAddresses o packet p src dst
    → (o.xx_mode ≡ number m
        → Gets
            (process_packet R t o num packet)
            o.reverse
            (AsksFor m (f ∷ fs) src dst)
            (Any (InNetwork src) (c ∷ cs)))
      × (o.xx_mode ≡ number m + xx_exclude
          → Gets
              (process_packet R t o num packet)
              o.reverse
              (¬ AsksFor m (f ∷ fs) src dst)
              (Any (InNetwork src) (c ∷ cs)))
process_packet-cidr_mode R t o num packet p src dst m f fs c cs mode l xf xc wf wc (g, s, d) = (
  (λ e. result _ (
      subst (λ x. Splits (verdict x) Verdict.send Verdict.dont_send (AsksFor m (f ∷ fs) src dst))
        (sym e) splits.0)),
  (λ e. result _ (
      exclude_splits _ _ (
        subst (λ x. Splits (verdict x) Verdict.dont_send Verdict.send (AsksFor m (f ∷ fs) src dst))
          (sym e) splits.1))),
)
  where
    ip : Both ℕ
    ip = record { src = src; dst = dst }

    verdict : ℕ → Verdict
    verdict xx_mode = process_xx_by_cidr_ipv4 xx_mode (f ∷ fs) ip

    splits :
        Splits (verdict (number m)) Verdict.send Verdict.dont_send (AsksFor m (f ∷ fs) src dst)
        × Splits
            (verdict (number m + xx_exclude))
            Verdict.dont_send
            Verdict.send
            (AsksFor m (f ∷ fs) src dst)
    splits = process_xx_by_cidr_ipv4_lem m f fs ip wf

    filtered :
        process_packet R t o num packet
        ≡ unless_filtered (by_mode R t o packet (v4 p) o.mode) (verdict o.xx_mode)
    filtered =
        at_header R t o packet p src dst num l (ap is_mac mode) g
        ∙ ap (λ v. then_with v (unless_filtered (by_mode R t o packet (v4 p) o.mode)))
            (ap (λ xs. verdict_of o packet xs (v4 p)) xf
              ∙ by_filter R t o packet p src dst f fs s d)

    split : by_mode R t o packet (v4 p) o.mode ≡ value (by_test o (check_ip_cidr (c ∷ cs) src))
    split =
        ap (by_mode R t o packet (v4 p)) mode
        ∙ by_source R t o packet p src dst s
        ∙ ap (λ ns. value (by_test o (check_ip_cidr ns src))) xc

    result :
        (Kept : Type 0)
        → Splits (verdict o.xx_mode) Verdict.send Verdict.dont_send Kept
        → Gets (process_packet R t o num packet) o.reverse Kept (Any (InNetwork src) (c ∷ cs))
    result Kept v =
        gets_by o Kept (Any (InNetwork src) (c ∷ cs)) _ _ _ (check_ip_cidr (c ∷ cs) src) filtered v
          split (check_ip_cidr_iff src c cs wc)
