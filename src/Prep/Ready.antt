-- ===== src/Prep/Ready.antt =====
-- When tcpprep is ready for a capture, and the verdict of its filters on a packet.
use tcpreplay.Prelude.{
  ℕ, ◌+◌, ◌^◌, ◌≤◌, ◌<◌, ◌≡◌, ◌≢◌, ◌⊎◌, refl, arith, true, List, [], ◌∷◌, some, length, All,
  IsBytes, inl, inr,
}
use tcpreplay.Packet.Laws.{Ends, AnyNumber, ends_bind}
use tcpreplay.Cidr.{Cidr}
use tcpreplay.Cidr.V4.{IsWellFormed}
use tcpreplay.Filter.{
  Verdict, xx_exclude, Ends as Both, process_xx_by_cidr_ipv4, process_xx_by_cidr_ipv6,
}
use tcpreplay.Filter.Laws.{
  Splits, Mode as Asked, number, process_xx_by_cidr_ipv4_lem, process_xx_by_cidr_ipv6_lem,
}
use tcpreplay.L2.{juniper_ether, link_of}
use tcpreplay.Tree.Packets.{le32_at, bytes_at}
use tcpreplay.Tree.Packets.Laws.{ends_le32}
use tcpreplay.Prep.{
  Mode, error_mode, first_mode, auto_mode, bridge_mode, Options, Act, next, cache, grow, exits,
  fails, undefined_shift, Ip, v4, v6, verdict_of,
}
use tcpreplay.Prep.Headers.{StandsAt, HasHeader, IsRow, ends_bytes_below}
use tcpreplay.Prep.Run.{is_mac}

-- The modes that record each packet.
abbrev pub RecordsEach : Mode → Type 0
RecordsEach error_mode = ⊥
RecordsEach auto_mode = ⊥
RecordsEach m = Unit {0}

-- The modes that exit on a host that is not in the tree.
abbrev pub MayExit : Mode → Type 0
MayExit first_mode = Unit {0}
MayExit bridge_mode = Unit {0}
MayExit m = ⊥

abbrev pub IsNetwork : Cidr → Type 0
IsNetwork c = IsWellFormed c × IsBytes c.network6

-- `m`, or `m` with the flag for exclusion.
abbrev pub IsAsked : Asked → ℕ → Type 0
IsAsked m mode = (mode ≡ number m) ⊎ (mode ≡ number m + xx_exclude)

-- Options in a mode that records each packet, with well-formed networks. Where there are networks to
-- filter by, the mode of the filter is one of the four that ask for them, or one with the flag for
-- exclusion; with none, as by default and with a list of packets or a BPF filter, it is any.
pub record IsReady (o : Options) : Type 0 where
  pub records : RecordsEach o.mode
  pub link : link_of o.datalink ≢ juniper_ether
  pub networks : All IsNetwork o.cidrdata
  pub filters : All IsNetwork o.xx_cidr
  pub filter_mode : (o.xx_cidr ≡ []) ⊎ ((m : Asked) × IsAsked m o.xx_mode)

-- A packet of a capture, whole enough for the mode.
abbrev pub IsCaptured : Options → List ℕ → Type 0
IsCaptured o packet =
    (length packet < 2 ^ 31) × IsBytes packet × (is_mac o.mode ≡ true → 14 ≤ length packet)

-- A call of `add_cache`, or the exit of the mode.
abbrev pub IsSlot : {T : Type 0} → Mode → Act T → Type 0
IsSlot m (cache s d) = Unit {0}
IsSlot m exits = MayExit m
IsSlot m next = ⊥
IsSlot m fails = ⊥
IsSlot m undefined_shift = ⊥
IsSlot m (grow t) = ⊥

abbrev pub Decides : Verdict → Type 0
Decides v = (v ≡ Verdict.send) ⊎ (v ≡ Verdict.dont_send)

splits_send : (P : Type 0) (v : Verdict) → Splits v Verdict.send Verdict.dont_send P → Decides v
splits_send P v (inl (e, p)) = inl e
splits_send P v (inr (e, p)) = inr e

splits_drop : (P : Type 0) (v : Verdict) → Splits v Verdict.dont_send Verdict.send P → Decides v
splits_drop P v (inl (e, p)) = inr e
splits_drop P v (inr (e, p)) = inl e

-- The four bytes of an IPv4 header's addresses, and the sixteen of an IPv6 header's.
pub ends_addr4 :
    (packet : List ℕ) (datalink p : ℕ)
    → StandsAt packet datalink 20 p
    → Ends AnyNumber (le32_at packet (p + 12)) × Ends AnyNumber (le32_at packet (p + 16))
ends_addr4 packet datalink p h =
    (ends_le32 packet (p + 12) (omega arith), ends_le32 packet (p + 16) (omega arith))

pub ends_addr6 :
    (packet : List ℕ) (datalink p : ℕ)
    → IsBytes packet
    → StandsAt packet datalink 40 p
    → Ends (IsRow 16) (bytes_at 16 packet (p + 8)) × Ends (IsRow 16) (bytes_at 16 packet (p + 24))
ends_addr6 packet datalink p b h = (
  ends_bytes_below 16 packet (p + 8) b (omega arith),
  ends_bytes_below 16 packet (p + 24) b (omega arith),
)

pub well_formed : (cs : List Cidr) → All IsNetwork cs → All IsWellFormed cs
well_formed [] h = tt
well_formed (c ∷ cs) h = (h.0.0, well_formed cs h.1)

module _ (c : Cidr) (cs : List Cidr) (h : All IsNetwork (c ∷ cs)) (mode : ℕ) where
  filter4-Decides :
      (m : Asked) (ip : Both ℕ)
      → IsAsked m mode
      → Decides (process_xx_by_cidr_ipv4 mode (c ∷ cs) ip)
  filter4-Decides m ip (inl e) =
      rw e (splits_send _ _ (process_xx_by_cidr_ipv4_lem m c cs ip (well_formed (c ∷ cs) h)).0)
  filter4-Decides m ip (inr e) =
      rw e (splits_drop _ _ (process_xx_by_cidr_ipv4_lem m c cs ip (well_formed (c ∷ cs) h)).1)

  filter6-Decides :
      (m : Asked) (ip : Both (List ℕ))
      → IsBytes ip.src
      → IsBytes ip.dst
      → IsAsked m mode
      → Decides (process_xx_by_cidr_ipv6 mode (c ∷ cs) ip)
  filter6-Decides m ip hs hd (inl e) =
      rw e (splits_send _ _ (process_xx_by_cidr_ipv6_lem m c cs ip hs hd h).0)
  filter6-Decides m ip hs hd (inr e) =
      rw e (splits_drop _ _ (process_xx_by_cidr_ipv6_lem m c cs ip hs hd h).1)

module _ (o : Options) (ready : IsReady o) (packet : List ℕ) (captured : IsCaptured o packet) where
  asked_lem :
      (c : Cidr) (cs : List Cidr)
      → (o.xx_cidr ≡ []) ⊎ ((m : Asked) × IsAsked m o.xx_mode)
      → o.xx_cidr ≡ c ∷ cs
      → (m : Asked) × IsAsked m o.xx_mode
  asked_lem c cs (inl e) q = cc (e, q)
  asked_lem c cs (inr a) q = a

  pub verdict_lem :
      (cs : List Cidr) (ip : Ip)
      → o.xx_cidr ≡ cs
      → All IsNetwork cs
      → HasHeader packet o.datalink (some ip)
      → Ends Decides (verdict_of o packet cs ip)
  unfolding verdict_of
  verdict_lem [] ip q n h = (Verdict.send, refl, inl refl)
  verdict_lem (c ∷ cs) (v4 p) q n h =
      let asked = asked_lem c cs ready.filter_mode q in
      let a = ends_addr4 packet o.datalink p h in
      ends_bind AnyNumber Decides _ _ a.0 (λ src u. ends_bind AnyNumber Decides _ _ a.1 (λ dst v. (
        process_xx_by_cidr_ipv4 o.xx_mode (c ∷ cs) (record { src = src; dst = dst }),
        refl,
        filter4-Decides c cs n o.xx_mode asked.0 (record { src = src; dst = dst }) asked.1,
      )))
  verdict_lem (c ∷ cs) (v6 p) q n h =
      let asked = asked_lem c cs ready.filter_mode q in
      let a = ends_addr6 packet o.datalink p captured.1 h in
      ends_bind (IsRow 16) Decides _ _ a.0 (λ src u. ends_bind (IsRow 16) Decides _ _ a.1 (λ dst v.
        (
          process_xx_by_cidr_ipv6 o.xx_mode (c ∷ cs) (record { src = src; dst = dst }),
          refl,
          filter6-Decides c cs n o.xx_mode asked.0 (record { src = src; dst = dst }) u.0 v.0
              asked.1,
        )))
