-- ===== src/Portmap.antt =====
-- The port maps of src/tcpedit/portmap.c: the parser, the lookup, and the rewriting of TCP and UDP
-- ports with their checksum. Ports are numbers in network byte order, as a little-endian host
-- loads them.
pub mod Parse
pub mod Bounds
pub mod Rewrite
mod Tests
use tcpreplay.Prelude.{
  ℕ, zero, suc, ◌+◌, ◌-◌, ◌*◌, ◌/◌, ◌%◌, ◌^◌, Bool, true, false, List, [], ◌∷◌, ◌++◌, Option, none,
  some, ltb, leb, ◌==◌, ◌&&◌, ◌||◌, if◌then◌else◌, swap16, u16, ℤ, pos, negsuc, map,
}
use tcpreplay.Libc.{strtol10, Parsed}
use tcpreplay.Libc.Tokens.{strtok, tokens, contains}

-- `tcpedit_portmap_t` less its `next`.
pub record Entry : Type 0 where
  pub from : ℕ
  pub to : ℕ

-- What `ports2PORT` returns: NULL, or a chain. It hands NULL to `strtol` where a list has no number.
pub data Ports : Type 0 where
  null null_dereference : Ports
  chain : List Entry → Ports

-- `htons` of a `long`: the value is cut to 16 bits first.
abbrev pub htons_long : ℤ → ℕ
htons_long (pos n) = swap16 (u16 n)
htons_long (negsuc n) = swap16 (u16 (0xffff - u16 n))

-- `l > 65535 || l < 0`
abbrev pub out_of_range : ℤ → Bool
out_of_range (pos n) = ltb 65535 n
out_of_range (negsuc n) = true

abbrev pub magnitude : ℤ → ℕ
magnitude (pos n) = n
magnitude (negsuc n) = 0

-- `strlen(badchar) != 0`
abbrev pub has_rest : Parsed → Bool
has_rest p = elim p.rest [ [] ↦ false | _ ∷ _ ↦ true ]

-- `for (i = from_b; i <= from_e; i++)`, with the rounds left; the chain ends in the zeroed node
-- that the last round has allocated.
unfoldable pub range_chain : ℕ → ℕ → ℤ → List Entry
range_chain zero i to = record { from = 0; to = 0 } ∷ []
range_chain (suc n) i to =
    record { from = htons_long (pos i); to = htons_long to } ∷ range_chain n (i + 1) to

unfoldable pub checked_range : Parsed → Parsed → ℤ → Ports
checked_range b e to =
    if has_rest b
    then null
    else if out_of_range b.value || out_of_range e.value
    then null
    else chain (range_chain (magnitude e.value + 1 - magnitude b.value) (magnitude b.value) to)

-- The two bounds of a range; what stands behind a second `-` is not looked at.
abbrev pub range_to : List ℕ → ℤ → Option (List ℕ × List ℕ) → Ports
range_to first to none = null
range_to first to (some (second, rest)) = checked_range (strtol10 first) (strtol10 second) to

abbrev pub range_of : Option (List ℕ × List ℕ) → ℤ → Ports
range_of none to = null_dereference
range_of (some (first, rest)) to = range_to first to (strtok b'-' rest)

abbrev pub prepend : Entry → Ports → Ports
prepend e null = null
prepend e null_dereference = null_dereference
prepend e (chain es) = chain (e ∷ es)

-- The numbers of a list behind the first.
unfoldable pub list_tail : List (List ℕ) → ℤ → Ports
list_tail [] to = chain []
list_tail (t ∷ ts) to =
    let rest = list_tail ts to in
    if has_rest (strtol10 t) || out_of_range (strtol10 t).value
    then null
    else prepend (record { from = htons_long (strtol10 t).value; to = htons_long to }) rest

-- The first number of a list is not held to 65535.
abbrev pub list_of : Option (List ℕ × List ℕ) → ℤ → Ports
list_of none to = null_dereference
list_of (some (first, rest)) to =
    if has_rest (strtol10 first)
    then null
    else prepend (record { from = htons_long (strtol10 first).value; to = htons_long to })
        (list_tail (tokens b'+' rest) to)

unfoldable pub single_of : Parsed → ℤ → Ports
single_of p to =
    if has_rest p || out_of_range p.value
    then null
    else chain (record { from = htons_long p.value; to = htons_long to } ∷ [])

-- The part in front of the colon, once the port behind it is read.
unfoldable pub from_part : List ℕ → ℤ → Ports
from_part from to =
    if contains b'-' from
    then range_of (strtok b'-' from) to
    else if contains b'+' from
    then list_of (strtok b'+' from) to
    else single_of (strtol10 from) to

unfoldable pub both_parts : List ℕ → List ℕ → Ports
both_parts from to =
    if contains b'-' from && contains b'+' from
    then null
    else if has_rest (strtol10 to) || out_of_range (strtol10 to).value
    then null
    else from_part from (strtol10 to).value

-- Three calls of `strtok_r` with a colon: two tokens, and nothing left.
abbrev pub third_of : List ℕ → List ℕ → Option (List ℕ × List ℕ) → Ports
third_of from to none = both_parts from to
third_of from to (some t) = null

abbrev pub second_of : List ℕ → Option (List ℕ × List ℕ) → Ports
second_of from none = null
second_of from (some (to, rest)) = third_of from to (strtok b':' rest)

abbrev pub first_of_two : Option (List ℕ × List ℕ) → Ports
first_of_two none = null
first_of_two (some (from, rest)) = second_of from (strtok b':' rest)

unfoldable pub ports2port : List ℕ → Ports
ports2port ports = first_of_two (strtok b':' ports)

-- What `parse_portmap` does: it returns 0, returns 1 with a chain, or crashes.
pub data Parsing : Type 0 where
  failed crashed : Parsing
  parsed : List Entry → Parsing

-- The maps behind the first. One that does not parse adds nothing.
unfoldable pub more_maps : List (List ℕ) → List Entry → Parsing
more_maps [] acc = parsed acc
more_maps (t ∷ ts) acc = elim (ports2port t) [
  | null ↦ more_maps ts acc
  | null_dereference ↦ crashed
  | chain es ↦ more_maps ts (acc ++ es)
]

abbrev pub first_map : List (List ℕ) → Parsing
first_map [] = failed
first_map (t ∷ ts) = elim (ports2port t) [
  | null ↦ failed
  | null_dereference ↦ crashed
  | chain es ↦ more_maps ts es
]

unfoldable pub parse_portmap : List ℕ → Parsing
parse_portmap ourstr = first_map (tokens b',' ourstr)

-- The first entry that fits decides.
unfoldable pub map_port : List Entry → ℕ → ℕ
map_port [] port = port
map_port (e ∷ es) port = if e.from == port then e.to else map_port es port
