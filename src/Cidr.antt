-- ===== src/Cidr.antt =====
-- Networks and the tests of src/common/cidr.c: is an address in a network, and in a list of them.
-- An IPv4 address is the 32-bit number in network byte order that the host loads, an IPv6 address
-- its 16 bytes.
pub mod Lists
pub mod V4
pub mod V6
mod Tests
use tcpreplay.Prelude.{
  ℕ, zero, suc, ◌+◌, ◌-◌, ◌*◌, ◌/◌, ◌%◌, ◌^◌, Bool, true, false, List, [], ◌∷◌, Option, none, some,
  ltb, leb, ◌==◌, ◌&&◌, ◌||◌, if◌then◌else◌, get_or, swap32, u32, ℤ, pos, negsuc,
}

-- `AF_UNSPEC`, which `new_cidr` leaves, `AF_INET` and `AF_INET6`.
pub data Family : Type 0 where
  af_unspec af_inet af_inet6 : Family

-- `tcpr_cidr_t` less its `next`; of the union the field that the family selects is used.
pub record Cidr : Type 0 where
  pub family : Family
  pub network : ℕ
  pub network6 : List ℕ
  pub masklen : ℤ

-- `x & (~0UL << s)` for a shift below the 64 bits of `unsigned long`.
abbrev pub keep_high : ℕ → ℕ → ℕ
keep_high x s = x / 2 ^ s * 2 ^ s

-- `32 - masklen`, if it is a shift that C defines.
abbrev pub shift_of : ℤ → Option ℕ
shift_of (pos m) = if leb m 32 then some (32 - m) else none
shift_of (negsuc m) = if ltb (33 + m) 64 then some (33 + m) else none

abbrev pub is_zero : ℤ → Bool
is_zero (pos m) = m == 0
is_zero (negsuc m) = false

-- `none` is a shift that C leaves undefined.
abbrev pub in_masked : Option ℕ → ℕ → ℕ → Option Bool
in_masked none ip network = none
in_masked (some s) ip network = some (keep_high (swap32 network) s == keep_high (swap32 ip) s)

unfoldable pub ip_by_family : Family → Cidr → ℕ → Option Bool
ip_by_family af_unspec c ip = some false
ip_by_family af_inet6 c ip = some false
ip_by_family af_inet c ip =
    if is_zero c.masklen && c.network == 0
    then some true
    else in_masked (shift_of c.masklen) ip c.network

unfoldable pub ip_in_cidr : Cidr → ℕ → Option Bool
unfolding ip_by_family
ip_in_cidr c ip = ip_by_family c.family c ip

abbrev pub byte : List ℕ → ℕ → ℕ
byte addr i = get_or addr i 0

abbrev pub word32_zero : List ℕ → ℕ → Bool
word32_zero addr i =
    byte addr i == 0 && byte addr (i + 1) == 0 && byte addr (i + 2) == 0 && byte addr (i + 3) == 0

unfoldable pub ip6_addr_is_unspec : List ℕ → Bool
ip6_addr_is_unspec addr =
    word32_zero addr 0 && word32_zero addr 4 && word32_zero addr 8 && word32_zero addr 12

-- `for (i = 0; i < j; i++)`: do the bytes from `i` on agree, `n` of them?
unfoldable pub same_bytes : List ℕ → List ℕ → ℕ → ℕ → Bool
same_bytes addr network zero i = true
same_bytes addr network (suc n) i =
    let rest = same_bytes addr network n (i + 1) in
    if byte addr i == byte network i then rest else false

-- `x & k` with `k = ~0 << (8 - bits)` in 32 bits, for `bits` from 1 to 7.
abbrev pub top_bits : ℕ → ℕ → ℕ
top_bits x bits = x / 2 ^ (8 - bits) * 2 ^ (8 - bits)

-- The comparison for a mask length that is not negative.
unfoldable pub match6 : List ℕ → List ℕ → ℕ → Bool
unfolding same_bytes
match6 network addr masklen =
    let j = masklen / 8 in
    let k = masklen % 8 in
    if same_bytes addr network j 0
    then (if k == 0 then true else top_bits (byte addr j) k == top_bits (byte network j) k)
    else false

-- `none` is a negative mask length, which the parser refuses.
unfoldable pub ip6_by_family : Family → ℤ → List ℕ → List ℕ → Option Bool
ip6_by_family af_unspec m network addr = some false
ip6_by_family af_inet m network addr = some false
ip6_by_family af_inet6 (negsuc m) network addr = none
ip6_by_family af_inet6 (pos m) network addr =
    some (if m == 0 && ip6_addr_is_unspec addr then true else match6 network addr m)

unfoldable pub ip6_in_cidr : Cidr → List ℕ → Option Bool
unfolding ip6_by_family
ip6_in_cidr c addr = ip6_by_family c.family c.masklen c.network6 addr

abbrev pub or_next : Option Bool → Option Bool → Option Bool
or_next none rest = none
or_next (some true) rest = some true
or_next (some false) rest = rest

-- The loop over a list with at least one entry.
unfoldable pub any_cidr : (Cidr → Option Bool) → List Cidr → Option Bool
any_cidr test [] = some false
any_cidr test (c ∷ cs) = let rest = any_cidr test cs in or_next (test c) rest

-- With no list, every address is taken.
unfoldable pub check_ip_cidr : List Cidr → ℕ → Option Bool
unfolding any_cidr
check_ip_cidr [] ip = some true
check_ip_cidr (c ∷ cs) ip = any_cidr (λ d. ip_in_cidr d ip) (c ∷ cs)

unfoldable pub check_ip6_cidr : List Cidr → List ℕ → Option Bool
unfolding any_cidr
check_ip6_cidr [] addr = some true
check_ip6_cidr (c ∷ cs) addr = any_cidr (λ d. ip6_in_cidr d addr) (c ∷ cs)

-- The list at `*cidrdata` with the new entries at its end.
unfoldable pub add_cidr : List Cidr → List Cidr → List Cidr
add_cidr [] new = new
add_cidr (c ∷ cs) new = c ∷ add_cidr cs new
