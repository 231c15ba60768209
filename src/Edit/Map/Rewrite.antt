-- ===== src/Edit/Map/Rewrite.antt =====
-- `rewrite_ipv4l3` as a whole.
use tcpreplay.Prelude.{ℕ, ◌≤◌, ◌≡◌, refl, false, List, [], ◌∷◌, Option, some, subst, All}
use tcpreplay.Edit.{Tcpedit, CidrMap, Ipv4Hdr, source, destination}
use tcpreplay.Edit.Sums.{IsSummed, KeepsFields, keeps_twice}
use tcpreplay.Edit.Map.{
  Direction, c2s, s2c, both_maps, source_map, destination_map, by_maps, rewrite_ipv4l3,
}
use tcpreplay.Edit.Map.Laws.{IsEntry, Mapped, ipmap_loop_lem}
use tcpreplay.Edit.Map.Laws.Loop.{map_loop_lem}

-- The maps that the options make: the second is there if the first is.
abbrev pub ArePaired : List CidrMap → List CidrMap → Type 0
ArePaired [] [] = Unit {0}
ArePaired [] (e ∷ es) = ⊥
ArePaired (e ∷ es) [] = ⊥
ArePaired (e ∷ es) (d ∷ ds) = Unit {0}

abbrev pub HasMaps : Tcpedit → Type 0
HasMaps t =
    ArePaired t.cidrmap1 t.cidrmap2
    × All IsEntry t.cidrmap1
    × All IsEntry t.cidrmap2
    × All IsEntry t.srcipmap
    × All IsEntry t.dstipmap

abbrev Both : ℕ → ℕ → ℕ → Tcpedit → List CidrMap → List CidrMap → Ipv4Hdr → Option Ipv4Hdr → Type 0
Both options segment len t m1 m2 h w =
    (h' : Ipv4Hdr) × (w ≡ some h')
    × KeepsFields h h'
    × IsSummed options segment len h'
    × Mapped t m1 h.ip_src h'.ip_src
    × Mapped t m2 h.ip_dst h'.ip_dst

both_maps_lem :
    (t : Tcpedit) (options segment len : ℕ) (e1 : CidrMap) (r1 : List CidrMap) (e2 : CidrMap)
    (r2 : List CidrMap) (h : Ipv4Hdr)
    → 20 ≤ len
    → All IsEntry (e1 ∷ r1)
    → All IsEntry (e2 ∷ r2)
    → IsSummed options segment len h
    → Both options segment len t (e1 ∷ r1) (e2 ∷ r2) h (both_maps t len (e1 ∷ r1) (e2 ∷ r2) h)
both_maps_lem t options segment len e1 r1 e2 r2 h long good1 good2 s =
    let q =
      map_loop_lem t options segment len long e1 r1 e2 r2
        (record { diddst = false; didsrc = false; header = h }) good1 good2 s in
    (q.0.header, rw q.1 refl, q.2, q.3, q.4.1 refl, q.5.1 refl)

by_maps_lem :
    (t : Tcpedit) (options segment len : ℕ) (direction : Direction) (m1 m2 : List CidrMap)
    (h : Ipv4Hdr)
    → 20 ≤ len
    → ArePaired m1 m2
    → All IsEntry m1
    → All IsEntry m2
    → IsSummed options segment len h
    → Both options segment len t
        (source_map direction m1 m2)
        (destination_map direction m1 m2)
        h
        (by_maps t direction len m1 m2 h)
unfolding by_maps Mapped
by_maps_lem t options segment len c2s [] [] h long p g1 g2 s = (h, refl, refl, s, refl, refl)
by_maps_lem t options segment len s2c [] [] h long p g1 g2 s = (h, refl, refl, s, refl, refl)
by_maps_lem t options segment len direction [] (d ∷ ds) h long p g1 g2 s = absurd p
by_maps_lem t options segment len direction (e ∷ es) [] h long p g1 g2 s = absurd p
by_maps_lem t options segment len c2s (e ∷ es) (d ∷ ds) h long p g1 g2 s =
    both_maps_lem t options segment len e es d ds h long g1 g2 s
by_maps_lem t options segment len s2c (e ∷ es) (d ∷ ds) h long p g1 g2 s =
    both_maps_lem t options segment len d ds e es h long g2 g1 s

-- A header of at least 20 bytes, all of them captured, whose checksums are right, and maps as the
-- options make them, with IPv4 targets of 1 to 32 bits. `rewrite_ipv4l3` is defined. The source is
-- moved by the first entry of `srcipmap` whose network holds it, if there is one, and the result by
-- the first of the direction's source map; so is the destination by `dstipmap` and the other map.
-- Both checksums are right again (or UDP's is 0), and all other fields are kept.
pub rewrite_ipv4l3_lem :
    (t : Tcpedit) (options segment len : ℕ) (direction : Direction) (h : Ipv4Hdr)
    → 20 ≤ len
    → HasMaps t
    → IsSummed options segment len h
    → (h' : Ipv4Hdr) × (rewrite_ipv4l3 t h direction len ≡ some h')
      × KeepsFields h h'
      × IsSummed options segment len h'
      × ((a : ℕ) × Mapped t t.srcipmap h.ip_src a
          × Mapped t (source_map direction t.cidrmap1 t.cidrmap2) a h'.ip_src)
      × ((b : ℕ) × Mapped t t.dstipmap h.ip_dst b
          × Mapped t (destination_map direction t.cidrmap1 t.cidrmap2) b h'.ip_dst)
unfolding rewrite_ipv4l3
rewrite_ipv4l3_lem t options segment len direction h long (paired, good1, good2, good3, good4) s =
    let g = ipmap_loop_lem t options segment len long source t.srcipmap h good3 s in
    let f = ipmap_loop_lem t options segment len long destination t.dstipmap g.0 good4 g.2.2 in
    let r =
      by_maps_lem t options segment len direction t.cidrmap1 t.cidrmap2 f.0 long paired good1 good2
        f.2.2 in
    (
      r.0,
      rw g.1 (rw f.1 r.1),
      keeps_twice h f.0 r.0 (keeps_twice h g.0 f.0 g.2.0 f.2.0) r.2,
      r.3,
      (
        g.0.ip_src,
        g.3,
        subst (λ a. Mapped t (source_map direction t.cidrmap1 t.cidrmap2) a r.0.ip_src) f.2.1 r.4,
      ),
      (f.0.ip_dst, subst (λ b. Mapped t t.dstipmap b f.0.ip_dst) g.2.1 f.3, r.5),
    )
