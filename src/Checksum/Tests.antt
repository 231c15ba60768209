-- ===== src/Checksum/Tests.antt =====
-- The checksum at concrete packets.
use tcpreplay.Prelude.{ℕ, ◌+◌, ◌%◌, ◌^◌, ◌<◌, ◌≡◌, refl, arith, List, [], ◌∷◌}
use tcpreplay.Checksum.{csum_replace2, csum16_add, csum16_sub}
use tcpreplay.Checksum.Partial.{Quad, do_csum, csum_replace16}
use tcpreplay.Checksum.Partial.Sum.{
  words_sum, do_csum-words_sum, csum_replace16-keeps_sum, quad_sum,
}

-- Port 80 becomes 8080 beside words that add up to 1000.
replaces_port : csum_replace2 64455 80 8080 ≡ 56455
unfolding csum_replace2 csum16_add csum16_sub
replaces_port = refl

abbrev seven : List ℕ
seven = 69 ∷ 0 ∷ 255 ∷ 254 ∷ 17 ∷ 200 ∷ 9 ∷ []

do_csum-words_sum_example :
    (do_csum 3 seven < 2 ^ 16) × (do_csum 3 seven % 65535 ≡ words_sum seven % 65535)
do_csum-words_sum_example = do_csum-words_sum 3 seven (omega arith)

abbrev old_address : Quad
old_address = record { w0 = 80; w1 = 0; w2 = 0; w3 = 0 }

abbrev new_address : Quad
new_address = record { w0 = 4_000_000_000; w1 = 7; w2 = 65535; w3 = 3_000_000_000 }

csum_replace16-keeps_sum_example :
    ((1000 + quad_sum new_address + csum_replace16 4 64455 old_address new_address) % 65535 ≡ 0)
    × (csum_replace16 4 64455 old_address new_address < 2 ^ 16)
csum_replace16-keeps_sum_example =
    csum_replace16-keeps_sum 4 1000 64455 old_address new_address (omega arith) (omega arith)
      (omega arith) refl
