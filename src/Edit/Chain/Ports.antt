-- ===== src/Edit/Chain/Ports.antt =====
-- The ports step of the chain keeps the layer 4 checksum right.
use tcpreplay.Prelude.{
  ℕ, ◌+◌, ◌-◌, ◌%◌, ◌^◌, ◌<◌, ◌≡◌, ◌⊎◌, refl, sym, arith, Bool, true, List, [], ◌∷◌, Option, none,
  some, ltb, ◌==◌, ◌&&◌, Bool-cases, inl, inr, subst, ltb→le, ==_iff,
}
use tcpreplay.Portmap.{Entry}
use tcpreplay.Portmap.Rewrite.{
  Header, Ipv4, proto_tcp, proto_udp, rewrite_ports, at_layer4, rewrite_ipv4_ports, warn,
  get_layer4_v4,
}
use tcpreplay.Portmap.Rewrite.Laws.{
  IsHeader, Verifies, VerifiesOrNone, rewrite_ports_tcp, rewrite_ports_udp,
}
use tcpreplay.Edit.{at_l4, first_fragment}
use tcpreplay.Edit.Sums.{IsSummed}
use tcpreplay.Edit.Chain.{Datagram, l4_header, ports_step}

-- The ports have 16 bits and the checksums are right; `rest` is the sum of what the layer 4 checksum
-- covers but addresses and ports.
abbrev pub IsDatagram : ℕ → ℕ → ℕ → Datagram → Type 0
IsDatagram options rest len d =
    (d.sport < 2 ^ 16) × (d.dport < 2 ^ 16) × IsSummed options (rest + d.sport + d.dport) len d.ip

-- What a TCP or UDP checksum is: right, or the 0 of UDP for none.
abbrev Covers : ℕ → ℕ → Header → Type 0
Covers protocol rest h = ((protocol ≡ proto_udp) × (h.sum ≡ 0)) ⊎ Verifies rest h

-- The header that `rewrite_ports` makes has its widths, and its checksum is right again.
abbrev Rewritten : List Entry → ℕ → ℕ → ℕ → Bool → Header → Type 0
Rewritten es protocol rest l4len covered h =
    IsHeader (rewrite_ports es protocol h l4len).1
    × (covered ≡ true → Covers protocol rest (rewrite_ports es protocol h l4len).1)

module _ (es : List Entry) (rest l4len : ℕ) (covered : Bool) (h : Header) (wide : IsHeader h) where
  -- Some sum for which the checksum of the header is right.
  some_rest : ℕ
  some_rest = 65535 - (h.sport + h.dport + h.sum) % 65535

  short :
      (protocol size : ℕ)
      → rewrite_ports es protocol h l4len ≡ (warn, h)
      → (covered ≡ true → Covers protocol rest h)
      → Rewritten es protocol rest l4len covered h
  short protocol size e v = rw e (wide, v)

  rewritten_tcp :
      (covered ≡ true → Covers proto_tcp rest h) → Rewritten es proto_tcp rest l4len covered h
  rewritten_tcp v = elim (Bool-cases (ltb l4len 20)) [
    | inl t ↦ short proto_tcp 20 (unfold rewrite_ports in rw t refl) v
    | inr f ↦ (
      (rewrite_ports_tcp es some_rest l4len h (ltb→le l4len 20 f) wide
          (unfold some_rest in omega arith)).2,
      (λ k. elim (v k) [
        | inl (u, z) ↦ absurd (omega arith)
        | inr c ↦ inr (rewrite_ports_tcp es rest l4len h (ltb→le l4len 20 f) wide c).3
      ]),
    )
  ]

  rewritten_udp :
      (covered ≡ true → Covers proto_udp rest h) → Rewritten es proto_udp rest l4len covered h
  rewritten_udp v = elim (Bool-cases (ltb l4len 8)) [
    | inl t ↦ short proto_udp 8 (unfold rewrite_ports in rw t refl) v
    | inr f ↦ (
      (rewrite_ports_udp es some_rest l4len h (ltb→le l4len 8 f) wide
          (inr (unfold some_rest in omega arith))).2,
      (λ k.
          none_or_right _
            (rewrite_ports_udp es rest l4len h (ltb→le l4len 8 f) wide (right_or_none (v k))).3),
    )
  ]
    where
      right_or_none : Covers proto_udp rest h → VerifiesOrNone rest h
      right_or_none (inl (u, z)) = inl z
      right_or_none (inr c) = inr c

      none_or_right : (g : Header) → VerifiesOrNone rest g → Covers proto_udp rest g
      none_or_right g (inl z) = inl (refl, z)
      none_or_right g (inr c) = inr c

-- What `rewrite_ipv4_ports` makes of the header.
abbrev PortsMoved : List Entry → Ipv4 → ℕ → ℕ → Bool → Header → Type 0
PortsMoved es ip rest len covered h =
    IsHeader (rewrite_ipv4_ports es (some ip) len h).1
    × (covered ≡ true → Covers ip.ip_p rest (rewrite_ipv4_ports es (some ip) len h).1)

at_layer4_lem :
    (es : List Entry) (protocol rest len : ℕ) (covered : Bool) (h : Header) (l4 : Option ℕ)
    → IsHeader h
    → ((l4len : ℕ) → Rewritten es protocol rest l4len covered h)
    → (covered ≡ true → Covers protocol rest h)
    → IsHeader (at_layer4 es protocol h len l4).1
      × (covered ≡ true → Covers protocol rest (at_layer4 es protocol h len l4).1)
at_layer4_lem es protocol rest len covered h none wide r v = (wide, v)
at_layer4_lem es protocol rest len covered h (some l4) wide r v = r (len - l4)

ipv4_ports_lem :
    (es : List Entry) (ip : Ipv4) (rest len : ℕ) (covered : Bool) (h : Header)
    → IsHeader h
    → (covered ≡ true → Covers ip.ip_p rest h)
    → PortsMoved es ip rest len covered h
unfolding rewrite_ipv4_ports
ipv4_ports_lem es ip rest len covered h wide v = elim (Bool-cases (ip.ip_p == proto_tcp)) [
  | inl t ↦ rw t (
      at_layer4_lem es ip.ip_p rest len covered h (get_layer4_v4 ip len) wide
        (λ l4len.
          subst (λ p. (covered ≡ true → Covers p rest h) → Rewritten es p rest l4len covered h)
            (sym ((==_iff ip.ip_p proto_tcp).0 t)) (rewritten_tcp es rest l4len covered h wide) v)
        v)
  | inr f ↦ elim (Bool-cases (ip.ip_p == proto_udp)) [
    | inl u ↦
        rw (f, u)
          (at_layer4_lem es ip.ip_p rest len covered h (get_layer4_v4 ip len) wide
            (λ l4len.
              subst (λ p. (covered ≡ true → Covers p rest h) → Rewritten es p rest l4len covered h)
                (sym ((==_iff ip.ip_p proto_udp).0 u)) (rewritten_udp es rest l4len covered h wide)
                v)
            v)
    | inr n ↦ rw (f, n) (wide, v)
  ]
]

pub ports_step_lem :
    (ports : List Entry) (options rest len : ℕ) (d : Datagram)
    → IsDatagram options rest len d
    → IsDatagram options rest len (ports_step ports len d)
unfolding ports_step
ports_step_lem [] options rest len d s = s
ports_step_lem (e ∷ es) options rest len d (ws, wd, (w, i, l4)) =
    let r =
      ipv4_ports_lem (e ∷ es) (record { ip_hl = d.ip.ip_hl; ip_p = d.ip.ip_p })
        (rest + d.ip.ip_src + d.ip.ip_dst) len
        (at_l4 d.ip.ip_hl d.ip.ip_p len && first_fragment d.ip) (l4_header d) (ws, wd, w.6)
        (λ k. inwards (l4 k)) in
    (r.0.0, r.0.1, (omega (arith, r.0), i, (λ k. outwards _ (r.1 k))))
  where
    inwards :
        ((d.ip.ip_p ≡ proto_udp) × (d.ip.l4_sum ≡ 0))
          ⊎ ((rest + d.sport + d.dport + d.ip.ip_src + d.ip.ip_dst + d.ip.l4_sum) % 65535 ≡ 0)
        → Covers d.ip.ip_p (rest + d.ip.ip_src + d.ip.ip_dst) (l4_header d)
    inwards (inl z) = inl z
    inwards (inr c) = inr (omega arith)

    outwards :
        (h : Header)
        → Covers d.ip.ip_p (rest + d.ip.ip_src + d.ip.ip_dst) h
        → ((d.ip.ip_p ≡ proto_udp) × (h.sum ≡ 0))
          ⊎ ((rest + h.sport + h.dport + d.ip.ip_src + d.ip.ip_dst + h.sum) % 65535 ≡ 0)
    outwards h (inl z) = inl z
    outwards h (inr c) = inr (omega arith)
