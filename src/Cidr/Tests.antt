-- ===== src/Cidr/Tests.antt =====
-- The tests of networks at 10.0.0.0/8, fe80::/10 and addresses in and outside of them.
use tcpreplay.Prelude.{ℕ, ◌≡◌, refl, arith, true, false, List, [], ◌∷◌, some, pos, inl, inr}
use tcpreplay.Cidr.{Cidr, af_inet, af_inet6, ip_in_cidr, ip6_in_cidr, match6}
use tcpreplay.Cidr.V4.{IsWellFormed}

-- 10.0.0.0/8: the bytes 10, 0, 0, 0 as a little-endian host loads them.
abbrev ten : Cidr
ten = record { family = af_inet; network = 10; network6 = []; masklen = pos 8 }

-- fe80::/10
abbrev link_local : Cidr
link_local = record {
  family = af_inet6;
  network = 0;
  network6 = 0xfe ∷ 0x80 ∷ 0 ∷ 0 ∷ 0 ∷ 0 ∷ 0 ∷ 0 ∷ 0 ∷ 0 ∷ 0 ∷ 0 ∷ 0 ∷ 0 ∷ 0 ∷ 0 ∷ [];
  masklen = pos 10;
}

-- febf::1
abbrev inside : List ℕ
inside = 0xfe ∷ 0xbf ∷ 0 ∷ 0 ∷ 0 ∷ 0 ∷ 0 ∷ 0 ∷ 0 ∷ 0 ∷ 0 ∷ 0 ∷ 0 ∷ 0 ∷ 0 ∷ 1 ∷ []

-- fec0::1
abbrev outside : List ℕ
outside = 0xfe ∷ 0xc0 ∷ 0 ∷ 0 ∷ 0 ∷ 0 ∷ 0 ∷ 0 ∷ 0 ∷ 0 ∷ 0 ∷ 0 ∷ 0 ∷ 0 ∷ 0 ∷ 1 ∷ []

-- 10.1.2.3 and 11.1.2.3.
tests_of_ten : (ip_in_cidr ten 0x0302010a ≡ some true) × (ip_in_cidr ten 0x0302010b ≡ some false)
unfolding ip_in_cidr
tests_of_ten = (refl, refl)

tests_of_link_local :
    (ip6_in_cidr link_local inside ≡ some true) × (ip6_in_cidr link_local outside ≡ some false)
unfolding ip6_in_cidr match6
tests_of_link_local = (refl, refl)

ten-IsWellFormed : IsWellFormed ten
ten-IsWellFormed = (8, refl, inl (refl, omega arith))

link_local-IsWellFormed : IsWellFormed link_local
link_local-IsWellFormed = (10, refl, inr (refl, omega arith))
