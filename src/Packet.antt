-- ===== src/Packet.antt =====
-- Reads of the bytes of a packet, as the code in src/common/get.c and src/tree.c does them through
-- pointers: a read past the end is a result of its own, and so is a loop that runs out of fuel.
pub mod Laws
use tcpreplay.Prelude.{ℕ, zero, suc, ◌+◌, ◌*◌, List, [], ◌∷◌}

-- What a walk ends in: a result, a read past the end of the packet, or no more fuel.
pub data Walk {ℓ} (A : Type ℓ) : Type ℓ where
  overrun unfinished : Walk A
  value : A → Walk A

abbrev pub then_with {ℓ κ} : {A : Type ℓ} {B : Type κ} → Walk A → (A → Walk B) → Walk B
then_with overrun k = overrun
then_with unfinished k = unfinished
then_with (value a) k = k a

unfoldable pub byte_of : List ℕ → ℕ → Walk ℕ
byte_of [] i = overrun
byte_of (b ∷ bs) zero = value b
byte_of (b ∷ bs) (suc i) = byte_of bs i

-- `ntohs` and `ntohl` of a field at this offset.
unfoldable pub be16_at : List ℕ → ℕ → Walk ℕ
be16_at packet i =
    then_with (byte_of packet i)
      (λ a. then_with (byte_of packet (i + 1)) (λ b. value (a * 256 + b)))

unfoldable pub be32_at : List ℕ → ℕ → Walk ℕ
be32_at packet i =
    then_with (be16_at packet i)
      (λ a. then_with (be16_at packet (i + 2)) (λ b. value (a * 65536 + b)))
