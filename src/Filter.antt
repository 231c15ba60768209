-- ===== src/Filter.antt =====
-- The -x and -X filters by address of src/common/xX.c.
pub mod Laws
mod Tests
use tcpreplay.Prelude.{
  ℕ, ◌+◌, Bool, true, false, List, Option, none, some, ◌==◌, if◌then◌else◌, bit_and, bit_xor,
}
use tcpreplay.Cidr.{Cidr, check_ip_cidr, check_ip6_cidr}

-- What the filter returns: `SEND`, `DONT_SEND`, a failed `assert`, or a test of an address that C
-- leaves undefined.
pub data Verdict : Type 0 where
  send dont_send assert_fails undefined : Verdict

abbrev pub xx_source : ℕ
xx_source = 1

abbrev pub xx_dest : ℕ
xx_dest = 2

abbrev pub xx_both : ℕ
xx_both = 4

abbrev pub xx_either : ℕ
xx_either = 8

abbrev pub xx_exclude : ℕ
xx_exclude = 128

-- `b ? DONT_SEND : SEND` and `b ? SEND : DONT_SEND`
abbrev pub unless : Option Bool → Verdict
unless none = undefined
unless (some true) = dont_send
unless (some false) = send

abbrev pub when : Option Bool → Verdict
when none = undefined
when (some true) = send
when (some false) = dont_send

-- `&&` and `||`, which test the second address only where the first leaves it open.
abbrev pub and_then : Option Bool → Option Bool → Option Bool
and_then none b = none
and_then (some false) b = some false
and_then (some true) b = b

abbrev pub or_else : Option Bool → Option Bool → Option Bool
or_else none b = none
or_else (some true) b = some true
or_else (some false) b = b

-- The two switches, over the tests of the source and of the destination address.
unfoldable pub by_mode : ℕ → Option Bool → Option Bool → Verdict
by_mode mode src dst =
    if bit_and mode xx_exclude == 0
    then if mode == xx_source
      then when src
      else if mode == xx_dest
      then when dst
      else if mode == xx_both
      then when (and_then dst src)
      else if mode == xx_either
      then when (or_else dst src)
      else assert_fails
    else let inner = bit_xor mode xx_exclude in
      if inner == xx_source
      then unless src
      else if inner == xx_dest
      then unless dst
      else if inner == xx_both
      then unless (and_then dst src)
      else if inner == xx_either
      then unless (or_else dst src)
      else dont_send

-- The addresses of a header.
pub record Ends {ℓ} (A : Type ℓ) : Type ℓ where
  pub src : A
  pub dst : A

unfoldable pub process_xx_by_cidr_ipv4 : ℕ → List Cidr → Ends ℕ → Verdict
process_xx_by_cidr_ipv4 mode cidr ip =
    by_mode mode (check_ip_cidr cidr ip.src) (check_ip_cidr cidr ip.dst)

unfoldable pub process_xx_by_cidr_ipv6 : ℕ → List Cidr → Ends (List ℕ) → Verdict
process_xx_by_cidr_ipv6 mode cidr ip =
    by_mode mode (check_ip6_cidr cidr ip.src) (check_ip6_cidr cidr ip.dst)
