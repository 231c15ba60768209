-- ===== src/Mac.antt =====
-- MAC addresses of src/common/mac.c: a MAC is a text of six numbers in hex with colons between them,
-- and six bytes in memory.
pub mod Laws
mod Tests
use tcpreplay.Prelude.{
  ℕ, zero, suc, ◌+◌, ◌*◌, Bool, true, false, List, [], ◌∷◌, Option, none, some, leb, ◌==◌, ◌&&◌,
  ◌||◌, if◌then◌else◌, length, set, drop, replicate, ltb, ℤ, pos, negsuc,
}
use tcpreplay.Libc.{Parsed, is_space, skip_spaces}
use tcpreplay.Libc.Hex.{strtol16}
use tcpreplay.Libc.Tokens.{strtok, tokens}
use tcpreplay.Cache.{Dir, c2s, s2c}

-- `l > 0xFF || l < 0`; `none` is refused.
abbrev pub octet_of : ℤ → Option ℕ
octet_of (pos n) = if leb n 0xff then some n else none
octet_of (negsuc n) = none

-- `*pp == ':' || (i == 5 && (isspace(*pp) || *pp == '\0'))`
unfoldable pub octet_ends : ℕ → List ℕ → Bool
octet_ends i [] = i == 5
octet_ends i (c ∷ cs) = c == b':' || (i == 5 && is_space c)

abbrev pub store_octet : List ℕ → ℕ → Option ℕ → (List ℕ → List ℕ) → List ℕ
store_octet dst i none go_on = dst
store_octet dst i (some l) go_on = go_on (set dst i l)

-- The loop from octet `i` on, `n` octets. With `pp == mac` nothing was read.
unfoldable pub mac_octets : ℕ → ℕ → List ℕ → List ℕ → List ℕ
mac_octets zero i mac dst = dst
mac_octets (suc n) i mac dst =
    let parsed = strtol16 mac in
    let pp = parsed.rest in
    if length pp == length mac
    then dst
    else if octet_ends i pp
    then store_octet dst i (octet_of parsed.value) (λ d. mac_octets n (i + 1) (drop 1 pp) d)
    else dst

-- What `dst` holds afterwards: it keeps its bytes from the first octet on that does not parse.
unfoldable pub mac2hex : List ℕ → List ℕ → ℕ → List ℕ
mac2hex mac dst len = if ltb len 6 then dst else mac_octets 6 0 (skip_spaces mac) dst

-- What `dualmac2hex` does to its buffers, and its result; a text of commas makes it read the length
-- of NULL.
pub data Dual : Type 0 where
  null_read : Dual
  result : ℕ → List ℕ → List ℕ → Dual

abbrev pub second_mac : ℕ → List ℕ → List ℕ → Option (List ℕ × List ℕ) → Dual
second_mac len first second none = result 1 first second
second_mac len first second (some (temp, rest)) = result 3 first (mac2hex temp second len)

abbrev pub first_mac : ℕ → List ℕ → List ℕ → Option (List ℕ × List ℕ) → Dual
first_mac len first second none = null_read
first_mac len first second (some (temp, rest)) =
    second_mac len (mac2hex temp first len) second (strtok b',' rest)

-- A token is not empty, so the tests of `strlen` hold.
unfoldable pub dualmac2hex : List ℕ → List ℕ → List ℕ → ℕ → Dual
dualmac2hex dualmac first second len =
    if leb len 1 then result 0 first second else first_mac len first second (strtok b',' dualmac)

-- `memcmp(a, b, 6) == 0`
unfoldable pub same_mac : List ℕ → List ℕ → Bool
same_mac [] [] = true
same_mac [] (y ∷ ys) = false
same_mac (x ∷ xs) [] = false
same_mac (x ∷ xs) (y ∷ ys) = x == y && same_mac xs ys

-- The tokens, with `tempmac` as the one before leaves it.
unfoldable pub mac_loop : List (List ℕ) → List ℕ → List ℕ → Dir
mac_loop [] tempmac mac = s2c
mac_loop (tempstr ∷ rest) tempmac mac =
    let more = mac_loop rest (mac2hex tempstr tempmac 6) mac in
    if same_mac mac (mac2hex tempstr tempmac 6) then c2s else more

unfoldable pub macinstring : List ℕ → List ℕ → Dir
macinstring macstring mac = mac_loop (tokens b',' macstring) (replicate 6 0) mac
