-- ===== src/Edit/Map/Laws.antt =====
-- The loops of `rewrite_ipv4l3` look each address up in its own map, and keep the checksums right.
pub mod Loop
use tcpreplay.Prelude.{
  ℕ, ◌^◌, ◌≤◌, ◌<◌, ◌≡◌, ◌⊎◌, ◌↔◌, refl, sym, arith, Bool, true, false, List, [], ◌∷◌, Option, none,
  some, ◌&&◌, if◌then◌else◌, inl, inr, subst, ◌∙◌, ap, All,
}
use tcpreplay.Cidr.{ip_in_cidr}
use tcpreplay.Cidr.V4.{IsWellFormed, InNetwork, ip_in_cidr-decides}
use tcpreplay.Edit.{
  Tcpedit, CidrMap, Ipv4Hdr, remap_ipv4, Side, source, destination, addr_at, store_addr,
}
use tcpreplay.Edit.Addresses.{Lands, IsTarget, remap_ipv4_lem}
use tcpreplay.Edit.Sums.{IsSummed, KeepsFields, keeps_twice, other, Stored, store_addr_lem}
use tcpreplay.Edit.Map.{Turn, then_some, try_entry, ipmap_loop}

-- An entry that the parser makes, with an IPv4 target that has at least one bit.
abbrev pub IsEntry : CidrMap → Type 0
IsEntry e = IsWellFormed e.from × IsTarget e.to

-- `b` is `a`, moved by the first entry whose network holds it, and `a` itself if there is none.
unfoldable pub Mapped : Tcpedit → List CidrMap → ℕ → ℕ → Type 0
Mapped t [] a b = b ≡ a
Mapped t (e ∷ es) a b =
    (InNetwork a e.from × Lands t e.to a b) ⊎ ((¬ InNetwork a e.from) × Mapped t es a b)

-- What a step on one address leaves of the header.
abbrev pub Keeps : ℕ → ℕ → ℕ → Side → Ipv4Hdr → Ipv4Hdr → Type 0
Keeps options segment len side h h' =
    KeepsFields h h'
    × (addr_at (other side) h' ≡ addr_at (other side) h)
    × IsSummed options segment len h'

-- The result of an entry that was tried.
abbrev pub Tried : Tcpedit → Side → CidrMap → Ipv4Hdr → Turn → Type 0
Tried t side e h (hit, h') =
    ((hit ≡ true)
      × InNetwork (addr_at side h) e.from
      × Lands t e.to (addr_at side h) (addr_at side h'))
    ⊎ ((hit ≡ false) × (¬ InNetwork (addr_at side h) e.from) × (addr_at side h' ≡ addr_at side h))

pub addr_at-lt :
    (side : Side) (options segment len : ℕ) (h : Ipv4Hdr)
    → IsSummed options segment len h
    → addr_at side h < 2 ^ 32
addr_at-lt source options segment len h s = s.0.7
addr_at-lt destination options segment len h s = s.0.8

module _ (t : Tcpedit) (options segment len : ℕ) (long : 20 ≤ len) (side : Side) where
  pub try_entry_lem :
      (e : CidrMap) (h : Ipv4Hdr)
      → IsEntry e
      → IsSummed options segment len h
      → (turn : Turn) × (try_entry t len side e h ≡ some turn)
        × Keeps options segment len side h turn.1
        × Tried t side e h turn
  unfolding try_entry
  try_entry_lem e h (well, target) s = decided (ip_in_cidr-decides (addr_at side h) e.from well)
    where
      decided :
          (b : Bool) × (ip_in_cidr e.from (addr_at side h) ≡ some b)
            × ((b ≡ true) ↔ InNetwork (addr_at side h) e.from)
          → (turn : Turn) × (try_entry t len side e h ≡ some turn)
            × Keeps options segment len side h turn.1
            × Tried t side e h turn
      decided (false, q, i) =
          ((false, h), rw q refl, (refl, refl, s), inr (refl, (λ n. cc (i.1 n)), refl))
      decided (true, q, i) =
          let m =
            remap_ipv4_lem t e.to (addr_at side h) target
              (addr_at-lt side options segment len h s) in
          let g = store_addr_lem options segment len side m.0 h long m.2 s in
          (
            (true, g.0),
            rw q (rw m.1 (rw g.1 refl)),
            (g.2.0, g.2.2, g.2.3),
            inl (refl, i.0 refl, subst (λ k. Lands t e.to (addr_at side h) k) (sym g.2.1) m.3),
          )

  -- `srcipmap` and `dstipmap` map one address, and leave the other.
  pub ipmap_loop_lem :
      (es : List CidrMap) (h : Ipv4Hdr)
      → All IsEntry es
      → IsSummed options segment len h
      → (h' : Ipv4Hdr) × (ipmap_loop t len side es h ≡ some h')
        × Keeps options segment len side h h'
        × Mapped t es (addr_at side h) (addr_at side h')
  unfolding ipmap_loop Mapped
  ipmap_loop_lem [] h u s = (h, refl, (refl, refl, s), refl)
  ipmap_loop_lem (e ∷ es) h (good, goods) s =
      next (try_entry_lem e h good s) (λ g k. ipmap_loop_lem es g goods k)
    where
      Outcome : Type 0
      Outcome =
          (h' : Ipv4Hdr) × (ipmap_loop t len side (e ∷ es) h ≡ some h')
          × Keeps options segment len side h h'
          × Mapped t (e ∷ es) (addr_at side h) (addr_at side h')

      next :
          (turn : Turn) × (try_entry t len side e h ≡ some turn)
            × Keeps options segment len side h turn.1
            × Tried t side e h turn
          → ((g : Ipv4Hdr)
              → IsSummed options segment len g
              → (h' : Ipv4Hdr) × (ipmap_loop t len side es g ≡ some h')
                × Keeps options segment len side g h'
                × Mapped t es (addr_at side g) (addr_at side h'))
          → Outcome
      next ((hit, g), q, k, inl (y, i, l)) ih = (g, rw q (rw y refl), k, inl (i, l))
      next ((hit, g), q, k, inr (n, o, same)) ih =
          let rest = ih g k.2 in
          (
            rest.0,
            rw q (rw n rest.1),
            (keeps_twice h g rest.0 k.0 rest.2.0, rest.2.1 ∙ k.1, rest.2.2),
            inr (o, subst (λ a. Mapped t es a (addr_at side rest.0)) same rest.3),
          )
