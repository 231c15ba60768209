-- ===== src/Edit/Map.antt =====
-- `rewrite_ipv4l3` of src/tcpedit/edit_packet.c: the addresses of a header by the maps of networks.
pub mod Laws
pub mod Rewrite
use tcpreplay.Prelude.{ℕ, Bool, true, false, List, [], ◌∷◌, Option, none, some, ◌&&◌, if◌then◌else◌}
use tcpreplay.Cidr.{ip_in_cidr}
use tcpreplay.Edit.{
  Tcpedit, CidrMap, Ipv4Hdr, remap_ipv4, Side, source, destination, addr_at, store_addr,
}

-- `TCPR_DIR_C2S` and `TCPR_DIR_S2C`
pub data Direction : Type 0 where
  c2s s2c : Direction

abbrev pub then_some {ℓ κ} : {A : Type ℓ} {B : Type κ} → Option A → (A → Option B) → Option B
then_some none k = none
then_some (some a) k = k a

-- A header, and whether this address of it was remapped.
abbrev pub Turn : Type 0
Turn = Bool × Ipv4Hdr

-- One entry of a map, tried on one address.
unfoldable pub try_entry : Tcpedit → ℕ → Side → CidrMap → Ipv4Hdr → Option Turn
try_entry t len side e h = then_some (ip_in_cidr e.from (addr_at side h)) (λ inside.
    if inside
    then then_some (remap_ipv4 t e.to (addr_at side h))
        (λ new. then_some (store_addr side new len h) (λ g. some (true, g)))
    else some (false, h))

-- `srcipmap` and `dstipmap`: the first entry whose network holds the address.
unfoldable pub ipmap_loop : Tcpedit → ℕ → Side → List CidrMap → Ipv4Hdr → Option Ipv4Hdr
ipmap_loop t len side [] h = some h
ipmap_loop t len side (e ∷ es) h =
    then_some (try_entry t len side e h)
      (λ turn. let rest = ipmap_loop t len side es turn.1 in if turn.0 then some turn.1 else rest)

-- `diddst`, `didsrc` and the header.
pub record Progress : Type 0 where
  pub diddst : Bool
  pub didsrc : Bool
  pub header : Ipv4Hdr

abbrev pub unless_done : Tcpedit → ℕ → Side → CidrMap → Bool → Ipv4Hdr → Option Turn
unless_done t len side e true h = some (true, h)
unless_done t len side e false h = try_entry t len side e h

-- The body of the loop: first the destination by the second map, then the source by the first.
unfoldable pub map_turn : Tcpedit → ℕ → CidrMap → CidrMap → Progress → Option Progress
map_turn t len e1 e2 p = then_some (unless_done t len destination e2 p.diddst p.header) (λ d.
    then_some (unless_done t len source e1 p.didsrc d.1)
      (λ s. some (record { diddst = d.0; didsrc = s.0; header = s.1 })))

-- What is left of a map: the pointer stays on the last entry.
abbrev pub advance : CidrMap → List CidrMap → CidrMap × List CidrMap
advance e [] = (e, [])
advance e (d ∷ ds) = (d, ds)

abbrev pub stop_or : Progress → Option Progress → Option Progress
stop_or p rest = if p.diddst && p.didsrc then some p else rest

-- The entries at the two pointers, and those behind each.
unfoldable pub map_loop :
    Tcpedit → ℕ → CidrMap → List CidrMap → CidrMap → List CidrMap → Progress → Option Progress
map_loop t len e1 [] e2 [] p = map_turn t len e1 e2 p
map_loop t len e1 [] e2 (d2 ∷ r2) p =
    then_some (map_turn t len e1 e2 p) (λ q. stop_or q (map_loop t len e1 [] d2 r2 q))
map_loop t len e1 (d1 ∷ r1) e2 [] p =
    then_some (map_turn t len e1 e2 p) (λ q. stop_or q (map_loop t len d1 r1 e2 [] q))
map_loop t len e1 (d1 ∷ r1) e2 (d2 ∷ r2) p =
    then_some (map_turn t len e1 e2 p) (λ q. stop_or q (map_loop t len d1 r1 d2 r2 q))

abbrev pub header_of : Option Progress → Option Ipv4Hdr
header_of none = none
header_of (some p) = some p.header

-- The loop over both maps; `none` is a NULL pointer that is followed.
abbrev pub both_maps : Tcpedit → ℕ → List CidrMap → List CidrMap → Ipv4Hdr → Option Ipv4Hdr
both_maps t len [] m2 h = none
both_maps t len (e1 ∷ r1) [] h = none
both_maps t len (e1 ∷ r1) (e2 ∷ r2) h =
    header_of (map_loop t len e1 r1 e2 r2 (record { diddst = false; didsrc = false; header = h }))

-- The maps for the source and for the destination in this direction, out of the two.
abbrev pub source_map : Direction → List CidrMap → List CidrMap → List CidrMap
source_map c2s m1 m2 = m1
source_map s2c m1 m2 = m2

abbrev pub destination_map : Direction → List CidrMap → List CidrMap → List CidrMap
destination_map c2s m1 m2 = m2
destination_map s2c m1 m2 = m1

unfoldable pub by_maps :
    Tcpedit → Direction → ℕ → List CidrMap → List CidrMap → Ipv4Hdr → Option Ipv4Hdr
by_maps t direction len [] m2 h = some h
by_maps t direction len (e ∷ es) m2 h =
    both_maps t len (source_map direction (e ∷ es) m2) (destination_map direction (e ∷ es) m2) h

-- Where it is defined, the code returns 0.
unfoldable pub rewrite_ipv4l3 : Tcpedit → Ipv4Hdr → Direction → ℕ → Option Ipv4Hdr
rewrite_ipv4l3 t h direction len = then_some (ipmap_loop t len source t.srcipmap h) (λ g.
    then_some (ipmap_loop t len destination t.dstipmap g)
      (λ f. by_maps t direction len t.cidrmap1 t.cidrmap2 f))
