-- ===== src/Edit/Chain/Laws.antt =====
-- The chain of edits keeps both checksums right, and all fields that it does not edit.
use tcpreplay.Prelude.{
  ℕ, ◌+◌, ◌*◌, ◌≤◌, ◌<◌, ◌≡◌, refl, sym, ap, ◌∙◌, arith, Bool, true, false, List, [], ◌∷◌, Option,
  some, ◌==◌, if◌then◌else◌, subst,
}
use tcpreplay.Portmap.{Entry}
use tcpreplay.Portmap.Rewrite.{ok}
use tcpreplay.Edit.{Tcpedit, Ipv4Hdr, rewrite_ipv4_ttl}
use tcpreplay.Edit.Sums.{IsSummed, KeepsFields}
use tcpreplay.Edit.Map.{Direction}
use tcpreplay.Edit.Map.Rewrite.{HasMaps, rewrite_ipv4l3_lem}
use tcpreplay.Edit.Header.{set_tos}
use tcpreplay.Edit.Header.Laws.{Clamped, rewrite_ipv4_ttl_lem, set_tos_lem, randomize_ipv4_lem}
use tcpreplay.Edit.Chain.Ports.{IsDatagram, ports_step_lem}
use tcpreplay.Edit.Chain.{Datagram, ports_step, address_step, random_step, edit_ipv4}

-- The edits may change the type of service, the TTL, the addresses and the checksums only.
abbrev pub Edited : Ipv4Hdr → Ipv4Hdr → Type 0
Edited a b = b ≡ record a {
  ip_tos = b.ip_tos;
  ip_ttl = b.ip_ttl;
  ip_src = b.ip_src;
  ip_dst = b.ip_dst;
  ip_sum = b.ip_sum;
  l4_sum = b.l4_sum;
}

edits_compose : (a b c : Ipv4Hdr) → Edited a b → Edited b c → Edited a c
edits_compose a b c p q =
    subst
      (λ k. c ≡ record k {
        ip_tos = c.ip_tos;
        ip_ttl = c.ip_ttl;
        ip_src = c.ip_src;
        ip_dst = c.ip_dst;
        ip_sum = c.ip_sum;
        l4_sum = c.l4_sum;
      })
      p q

from_kept : (a b : Ipv4Hdr) → KeepsFields a b → Edited a b × (b.ip_ttl ≡ a.ip_ttl)
from_kept a b p = (subst (λ k. Edited a k) (sym p) refl, ap (λ k. k.ip_ttl) p)

ports_step_keeps :
    (ports : List Entry) (len : ℕ) (d : Datagram) → KeepsFields d.ip (ports_step ports len d).ip
unfolding ports_step
ports_step_keeps [] len d = refl
ports_step_keeps (e ∷ es) len d = refl

-- What a step on the header leaves of it.
abbrev Step : ℕ → ℕ → ℕ → Ipv4Hdr → Ipv4Hdr → Type 0
Step options segment len h h' = KeepsFields h h' × IsSummed options segment len h'

abbrev Gives {ℓ} : {A : Type ℓ} → (A → Type 0) → Option A → Type ℓ
Gives {A} P w = (a : A) × (w ≡ some a) × P a

either_way {ℓ} :
    {A : Type ℓ} (P : A → Type 0) (b : Bool) (x y : Option A)
    → Gives P x
    → Gives P y
    → Gives P (if b then x else y)
either_way P true x y p q = p
either_way P false x y p q = q

whole : {a b len : ℕ} → a * 4 ≤ len → b ≡ a → b * 4 ≤ len
whole h e = omega arith

module _ (t : Tcpedit) (options segment len : ℕ) (h : Ipv4Hdr) (enough : h.ip_hl * 4 ≤ len)
    (s : IsSummed options segment len h) where
  address_step_lem :
      (direction : Direction)
      → HasMaps t
      → Gives (Step options segment len h) (address_step t direction len h)
  unfolding address_step
  address_step_lem direction maps =
      let r = rewrite_ipv4l3_lem t options segment len direction h (omega (arith, s.0)) maps s in
      either_way (Step options segment len h) t.rewrite_ip _ _ (r.0, r.1, (r.2, r.3))
        (h, refl, (refl, s))

  random_step_lem :
      Gives (λ (c, h'). (c ≡ ok) × Step options segment len h h') (random_step t len h)
  unfolding random_step
  random_step_lem =
      let r = (randomize_ipv4_lem t options segment len h s).1 enough in
      either_way (λ (c, h'). (c ≡ ok) × Step options segment len h h') (t.seed == 0) _ _
        ((ok, h), refl, (refl, (refl, s))) ((ok, r.0), r.1, (refl, (r.2, r.3)))

-- A packet whose IPv4 header was captured whole, with right checksums, IPv4 maps as the options make
-- them, and a TTL option of 8 bits. The chain of edits is defined and ends well; the checksum of the
-- header and that of a TCP or UDP header in the packet are right again (or UDP's is 0), the TTL is
-- what the mode makes of it, and of the header only the type of service, the TTL, the addresses and
-- the checksums change.
pub edit_ipv4_lem :
    (t : Tcpedit) (ports : List Entry) (direction : Direction) (options rest len : ℕ) (d : Datagram)
    → d.ip.ip_hl * 4 ≤ len
    → t.ttl_value < 256
    → HasMaps t
    → IsDatagram options rest len d
    → (d' : Datagram) × (edit_ipv4 t ports direction len d ≡ some (ok, d'))
      × IsDatagram options rest len d'
      × Clamped t.ttl_mode t.ttl_value d.ip.ip_ttl d'.ip.ip_ttl
      × Edited d.ip d'.ip
unfolding edit_ipv4
edit_ipv4_lem t ports direction options rest len d enough hv maps (ws, wd, s) =
    let a = set_tos_lem t options (rest + d.sport + d.dport) len d.ip s in
    let b = rewrite_ipv4_ttl_lem t options (rest + d.sport + d.dport) len (set_tos t d.ip) hv a.0 in
    let h = (rewrite_ipv4_ttl t (set_tos t d.ip)).1 in
    let start : Datagram = record d { ip = h } in
    let m = ports_step ports len start in
    let p = ports_step_lem ports options rest len start (ws, wd, b.1) in
    let tos_only = subst (λ k. Edited d.ip k) (sym a.1) refl in
    let ttl_only = subst (λ k. Edited (set_tos t d.ip) k) (sym b.2) refl in
    let moved = from_kept h m.ip (ports_step_keeps ports len start) in
    let so_far =
      edits_compose d.ip (set_tos t d.ip) m.ip tos_only
        (edits_compose (set_tos t d.ip) h m.ip ttl_only moved.0) in
    let g =
      address_step_lem t options (rest + m.sport + m.dport) len m.ip
        (whole enough (ap (λ k. k.ip_hl) so_far)) p.2 direction maps in
    let mapped = from_kept m.ip g.0 g.2.0 in
    let f =
      random_step_lem t options (rest + m.sport + m.dport) len g.0
        (whole enough (ap (λ k. k.ip_hl) mapped.0 ∙ ap (λ k. k.ip_hl) so_far)) g.2.1 in
    let mixed = from_kept g.0 f.0.1 f.2.1.0 in
    let ttl = mixed.1 ∙ mapped.1 ∙ moved.1 in
    (
      record m { ip = f.0.1 },
      rw g.1 (rw f.1 (ap (λ c. some (c, record m { ip = f.0.1 })) f.2.0)),
      (p.0, p.1, f.2.1.1),
      subst (λ n. Clamped t.ttl_mode t.ttl_value d.ip.ip_ttl n) (sym ttl)
          (subst (λ o. Clamped t.ttl_mode t.ttl_value o h.ip_ttl) (ap (λ k. k.ip_ttl) a.1) b.0),
      edits_compose d.ip m.ip f.0.1 so_far (edits_compose m.ip g.0 f.0.1 mapped.0 mixed.0),
    )
