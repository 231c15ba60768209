-- ===== src/Edit/V6.antt =====
-- The IPv6 addresses of src/tcpedit/edit_packet.c: `remap_ipv6` and `randomize_ipv6_addr`, on the 16
-- bytes of an address.
pub mod Laws
use tcpreplay.Prelude.{
  ℕ, zero, suc, ◌+◌, ◌-◌, ◌*◌, ◌/◌, ◌%◌, ◌^◌, Bool, true, false, not, List, [], ◌∷◌, Option, none,
  some, ltb, ◌==◌, ◌&&◌, if◌then◌else◌, u32, swap32, bit_and, bit_or, ℤ, pos, negsuc, length,
}
use tcpreplay.Cidr.{Cidr, Family, af_unspec, af_inet, af_inet6, byte}
use tcpreplay.Edit.{Tcpedit, mixed}
use tcpreplay.Edit.Map.{then_some}

unfoldable pub is_multicast_ipv6 : List ℕ → Bool
is_multicast_ipv6 addr = byte addr 0 == 0xff

-- `to[i] = from[i]` for the first bytes, as far as both reach.
unfoldable pub copy_bytes : ℕ → List ℕ → List ℕ → List ℕ
copy_bytes zero from to = to
copy_bytes (suc n) [] to = to
copy_bytes (suc n) (f ∷ from) [] = []
copy_bytes (suc n) (f ∷ from) (b ∷ to) = f ∷ copy_bytes n from to

-- A byte is written; behind the array that is undefined.
unfoldable pub put_byte : List ℕ → ℕ → ℕ → Option (List ℕ)
put_byte [] i b = none
put_byte (x ∷ xs) zero b = some (b ∷ xs)
put_byte (x ∷ xs) (suc i) b = then_some (put_byte xs i b) (λ ys. some (x ∷ ys))

-- `0xff << s` and `0xff >> s`: undefined from 32 on, and where the `int` overflows.
unfoldable pub ff_left : ℕ → Option ℕ
ff_left s = if ltb s 32 && ltb (255 * 2 ^ s) (2 ^ 31) then some (255 * 2 ^ s) else none

unfoldable pub ff_right : ℕ → Option ℕ
ff_right s = if ltb s 32 then some (255 / 2 ^ s) else none

-- The part of a byte behind the whole bytes. Here `k` holds the mask, not the number of bits, when
-- it is used as a shift, and `i` a masked byte when it is used as an index.
unfoldable pub odd_bits : List ℕ → ℕ → ℕ → List ℕ → Option (ℕ × List ℕ)
odd_bits network j bits addr =
    let k = u32 (0xffff_ffff * 2 ^ (8 - bits)) in
    let i = bit_and (byte addr j) k in
    then_some (ff_left (u32 (8 + 2 ^ 32 - k))) (λ high. then_some (ff_right k) (λ low.
      then_some
        (put_byte addr i (bit_or (bit_and (byte network j) high) (bit_and (byte addr i) low)))
        (λ moved. some (1, moved))))

-- The result and the address; `none` is behaviour that C leaves undefined.
unfoldable pub remap_masked : List ℕ → ℤ → List ℕ → Option (ℕ × List ℕ)
remap_masked network (negsuc m) addr = none
remap_masked network (pos m) addr =
    let j = m / 8 in
    let copied = copy_bytes j network addr in
    if ltb 16 j
    then none
    else if m % 8 == 0
    then some (1, copied)
    else odd_bits network j (m % 8) copied

unfoldable pub remap6_by_family : Tcpedit → Family → Cidr → List ℕ → Option (ℕ × List ℕ)
remap6_by_family t af_unspec c addr = some (0, addr)
remap6_by_family t af_inet c addr = some (0, addr)
remap6_by_family t af_inet6 c addr =
    if t.skip_broadcast && is_multicast_ipv6 addr
    then some (0, addr)
    else remap_masked c.network6 c.masklen addr

unfoldable pub remap_ipv6 : Tcpedit → Cidr → List ℕ → Option (ℕ × List ℕ)
remap_ipv6 t c addr = remap6_by_family t c.family c addr

-- A 32-bit word of four bytes, as a little-endian host loads and stores it.
abbrev pub load32 : ℕ → ℕ → ℕ → ℕ → ℕ
load32 a b c d = a + b * 2 ^ 8 + c * 2 ^ 16 + d * 2 ^ 24

abbrev pub store32 : ℕ → List ℕ → List ℕ
store32 w rest = w % 256 ∷ w / 2 ^ 8 % 256 ∷ w / 2 ^ 16 % 256 ∷ w / 2 ^ 24 % 256 ∷ rest

-- The loop over the words, each mixed with the seed.
unfoldable pub mix_words : ℕ → List ℕ → List ℕ
mix_words s (a ∷ b ∷ c ∷ d ∷ rest) = store32 (mixed (load32 a b c d) s) (mix_words s rest)
mix_words s (a ∷ b ∷ c ∷ []) = a ∷ b ∷ c ∷ []
mix_words s (a ∷ b ∷ []) = a ∷ b ∷ []
mix_words s (a ∷ []) = a ∷ []
mix_words s [] = []

abbrev pub with_first : ℕ → List ℕ → List ℕ
with_first b [] = []
with_first b (x ∷ xs) = b ∷ xs

unfoldable pub randomize_ipv6_addr : Tcpedit → List ℕ → List ℕ
randomize_ipv6_addr t addr =
    let was_multicast = is_multicast_ipv6 addr in
    let res = mix_words (swap32 t.seed) addr in
    if was_multicast && not (is_multicast_ipv6 res)
    then with_first 0xff res
    else if not was_multicast && is_multicast_ipv6 res
    then with_first 0xaa res
    else res
