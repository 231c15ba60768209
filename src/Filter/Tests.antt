-- ===== src/Filter/Tests.antt =====
-- The filter at concrete packets.
use tcpreplay.Prelude.{ℕ, ◌+◌, refl, arith, List, [], ◌∷◌, pos, inl, inr, Any, ◌⊎◌}
use tcpreplay.Cidr.{Cidr, af_inet, af_inet6}
use tcpreplay.Cidr.V4.{IsWellFormed, InNetwork}
use tcpreplay.Filter.{send, dont_send, xx_either, xx_exclude, Ends, process_xx_by_cidr_ipv4}
use tcpreplay.Filter.Laws.{either, Splits, process_xx_by_cidr_ipv4_lem}

-- 10.0.0.0/8 and fe80::/10
abbrev ten : Cidr
ten = record { family = af_inet; network = 10; network6 = []; masklen = pos 8 }

abbrev link_local : Cidr
link_local = record {
  family = af_inet6;
  network = 0;
  network6 = 0xfe ∷ 0x80 ∷ 0 ∷ 0 ∷ 0 ∷ 0 ∷ 0 ∷ 0 ∷ 0 ∷ 0 ∷ 0 ∷ 0 ∷ 0 ∷ 0 ∷ 0 ∷ 0 ∷ [];
  masklen = pos 10;
}

ten-IsWellFormed : IsWellFormed ten
ten-IsWellFormed = (8, refl, inl (refl, omega arith))

link_local-IsWellFormed : IsWellFormed link_local
link_local-IsWellFormed = (10, refl, inr (refl, omega arith))

-- From 10.1.2.3 to 11.1.2.3.
abbrev leaving : Ends ℕ
leaving = record { src = 0x0302010a; dst = 0x0302010b }

abbrev nets : List Cidr
nets = ten ∷ link_local ∷ []

process_xx_by_cidr_ipv4_lem_example :
    Splits
      (process_xx_by_cidr_ipv4 xx_either nets leaving)
      send
      dont_send
      (Any (InNetwork leaving.src) nets ⊎ Any (InNetwork leaving.dst) nets)
    × Splits
        (process_xx_by_cidr_ipv4 (xx_either + xx_exclude) nets leaving)
        dont_send
        send
        (Any (InNetwork leaving.src) nets ⊎ Any (InNetwork leaving.dst) nets)
process_xx_by_cidr_ipv4_lem_example =
    process_xx_by_cidr_ipv4_lem either ten (link_local ∷ []) leaving
      (ten-IsWellFormed, (link_local-IsWellFormed, tt))

abbrev within : Ends (List ℕ)
within = record {
  src = 0xfe ∷ 0xbf ∷ 0 ∷ 0 ∷ 0 ∷ 0 ∷ 0 ∷ 0 ∷ 0 ∷ 0 ∷ 0 ∷ 0 ∷ 0 ∷ 0 ∷ 0 ∷ 0 ∷ [];
  dst = 0xfe ∷ 0x80 ∷ 7 ∷ 0 ∷ 0 ∷ 0 ∷ 0 ∷ 0 ∷ 0 ∷ 0 ∷ 0 ∷ 0 ∷ 0 ∷ 0 ∷ 0 ∷ 0 ∷ [];
}
