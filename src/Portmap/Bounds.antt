-- ===== src/Portmap/Bounds.antt =====
-- Whatever text is given, the chains that the parser returns hold 16-bit ports.
use tcpreplay.Prelude.{
  ℕ, zero, suc, ◌+◌, ◌<◌, ◌^◌, ◌≢◌, refl, arith, Bool, true, false, List, [], ◌∷◌, ◌++◌, Option,
  none, some, ◌&&◌, ◌||◌, if◌then◌else◌, ℤ, pos, negsuc, All, Bool-cases, inl, inr,
}
use tcpreplay.Libc.{strtol10, Parsed}
use tcpreplay.Libc.Tokens.{strtok, tokens, contains}
use tcpreplay.Portmap.{
  Entry, Ports, null, null_dereference, chain, htons_long, range_chain, checked_range, range_of,
  range_to, single_of, from_part, both_parts, third_of, second_of, first_of_two, ports2port,
  has_rest, out_of_range, list_of, list_tail, prepend, Parsing, parsed, failed, crashed, first_map,
  more_maps, parse_portmap,
}

-- Every node holds two 16-bit numbers.
abbrev pub IsEntry : Entry → Type 0
IsEntry e = (e.from < 2 ^ 16) × (e.to < 2 ^ 16)

htons_long-lt : (l : ℤ) → htons_long l < 2 ^ 16
htons_long-lt (pos n) = omega arith
htons_long-lt (negsuc n) = omega arith

abbrev AllIn : Ports → Type 0
AllIn null = Unit {0}
AllIn null_dereference = Unit {0}
AllIn (chain es) = All IsEntry es

-- A chain that a caller can walk: at least one node, and ports of 16 bits.
abbrev pub IsPorts : Ports → Type 0
IsPorts null = Unit {0}
IsPorts null_dereference = Unit {0}
IsPorts (chain es) = (es ≢ []) × All IsEntry es

range_chain-IsEntry : (n i : ℕ) (to : ℤ) → All IsEntry (range_chain n i to)
unfolding range_chain
range_chain-IsEntry zero i to = omega arith
range_chain-IsEntry (suc n) i to =
    ((omega arith, htons_long-lt to), range_chain-IsEntry n (i + 1) to)

range_chain-ne-nil : (n i : ℕ) (to : ℤ) → range_chain n i to ≢ []
unfolding range_chain
range_chain-ne-nil zero i to e = cc e
range_chain-ne-nil (suc n) i to e = cc e

-- A branch that fails, or a chain.
if-IsPorts : (b : Bool) (p : Ports) → IsPorts p → IsPorts (if b then null else p)
if-IsPorts true p h = tt
if-IsPorts false p h = h

checked_range-IsPorts : (b e : Parsed) (to : ℤ) → IsPorts (checked_range b e to)
unfolding checked_range
checked_range-IsPorts b e to = if-IsPorts (has_rest b) _ (
    if-IsPorts (out_of_range b.value || out_of_range e.value) _
      (range_chain-ne-nil _ _ to, range_chain-IsEntry _ _ to))

range_of-IsPorts : (o : Option (List ℕ × List ℕ)) (to : ℤ) → IsPorts (range_of o to)
range_of-IsPorts none to = tt
range_of-IsPorts (some (first, rest)) to = second (strtok b'-' rest)
  where
    second : (o : Option (List ℕ × List ℕ)) → IsPorts (range_to first to o)
    second none = tt
    second (some (s, r)) = checked_range-IsPorts (strtol10 first) (strtol10 s) to

prepend-IsPorts :
    (l to : ℤ) (p : Ports)
    → AllIn p
    → IsPorts (prepend (record { from = htons_long l; to = htons_long to }) p)
prepend-IsPorts l to null h = tt
prepend-IsPorts l to null_dereference h = tt
prepend-IsPorts l to (chain es) h = ((λ e. cc e), ((htons_long-lt l, htons_long-lt to), h))

IsPorts-AllIn : (p : Ports) → IsPorts p → AllIn p
IsPorts-AllIn null h = tt
IsPorts-AllIn null_dereference h = tt
IsPorts-AllIn (chain es) h = h.1

list_tail-AllIn : (ts : List (List ℕ)) (to : ℤ) → AllIn (list_tail ts to)
unfolding list_tail
list_tail-AllIn [] to = tt
list_tail-AllIn (t ∷ ts) to = IsPorts-AllIn _ (
    if-IsPorts (has_rest (strtol10 t) || out_of_range (strtol10 t).value) _
      (prepend-IsPorts (strtol10 t).value to (list_tail ts to) (list_tail-AllIn ts to)))

list_of-IsPorts : (o : Option (List ℕ × List ℕ)) (to : ℤ) → IsPorts (list_of o to)
list_of-IsPorts none to = tt
list_of-IsPorts (some (first, rest)) to =
    if-IsPorts (has_rest (strtol10 first)) _
      (prepend-IsPorts (strtol10 first).value to _ (list_tail-AllIn (tokens b'+' rest) to))

single_of-IsPorts : (p : Parsed) (to : ℤ) → IsPorts (single_of p to)
unfolding single_of
single_of-IsPorts p to =
    if-IsPorts (has_rest p || out_of_range p.value) _
      ((λ e. cc e), ((htons_long-lt p.value, htons_long-lt to), tt))

from_part-IsPorts : (from : List ℕ) (to : ℤ) → IsPorts (from_part from to)
unfolding from_part
from_part-IsPorts from to = elim (Bool-cases (contains b'-' from)) [
  | inl e ↦ rw e (range_of-IsPorts (strtok b'-' from) to)
  | inr e ↦ rw e (elim (Bool-cases (contains b'+' from)) [
    | inl k ↦ rw k (list_of-IsPorts (strtok b'+' from) to)
    | inr k ↦ rw k (single_of-IsPorts (strtol10 from) to)
  ])
]

both_parts-IsPorts : (from to : List ℕ) → IsPorts (both_parts from to)
unfolding both_parts
both_parts-IsPorts from to = if-IsPorts (contains b'-' from && contains b'+' from) _ (
    if-IsPorts (has_rest (strtol10 to) || out_of_range (strtol10 to).value) _
      (from_part-IsPorts from (strtol10 to).value))

third_of-IsPorts : (from to : List ℕ) (o : Option (List ℕ × List ℕ)) → IsPorts (third_of from to o)
third_of-IsPorts from to none = both_parts-IsPorts from to
third_of-IsPorts from to (some t) = tt

second_of-IsPorts : (from : List ℕ) (o : Option (List ℕ × List ℕ)) → IsPorts (second_of from o)
second_of-IsPorts from none = tt
second_of-IsPorts from (some (to, rest)) = third_of-IsPorts from to (strtok b':' rest)

first_of_two-IsPorts : (o : Option (List ℕ × List ℕ)) → IsPorts (first_of_two o)
first_of_two-IsPorts none = tt
first_of_two-IsPorts (some (from, rest)) = second_of-IsPorts from (strtok b':' rest)

pub ports2port-IsPorts : (ports : List ℕ) → IsPorts (ports2port ports)
unfolding ports2port
ports2port-IsPorts ports = first_of_two-IsPorts (strtok b':' ports)

abbrev pub IsParsing : Parsing → Type 0
IsParsing failed = Unit {0}
IsParsing crashed = Unit {0}
IsParsing (parsed es) = (es ≢ []) × All IsEntry es

All-append : (xs ys : List Entry) → All IsEntry xs → All IsEntry ys → All IsEntry (xs ++ ys)
All-append [] ys h k = k
All-append (x ∷ xs) ys h k = (h.0, All-append xs ys h.1 k)

append-ne-nil : (xs ys : List Entry) → xs ≢ [] → xs ++ ys ≢ []
append-ne-nil [] ys h e = h refl
append-ne-nil (x ∷ xs) ys h e = cc e

abbrev more_of : Ports → List (List ℕ) → List Entry → Parsing
more_of p ts acc = elim p [
  | null ↦ more_maps ts acc
  | null_dereference ↦ crashed
  | chain es ↦ more_maps ts (acc ++ es)
]

more_maps-IsParsing :
    (ts : List (List ℕ)) (acc : List Entry)
    → acc ≢ []
    → All IsEntry acc
    → IsParsing (more_maps ts acc)
unfolding more_maps
more_maps-IsParsing [] acc ne h = (ne, h)
more_maps-IsParsing (t ∷ ts) acc ne h =
    next (ports2port t) (ports2port-IsPorts t) (more_maps-IsParsing ts)
  where
    next :
        (p : Ports)
        → IsPorts p
        → ((a : List Entry) → a ≢ [] → All IsEntry a → IsParsing (more_maps ts a))
        → IsParsing (more_of p ts acc)
    next null v rest = rest acc ne h
    next null_dereference v rest = tt
    next (chain es) v rest = rest (acc ++ es) (append-ne-nil acc es ne) (All-append acc es h v.1)

first_map-IsParsing : (ts : List (List ℕ)) → IsParsing (first_map ts)
first_map-IsParsing [] = tt
first_map-IsParsing (t ∷ ts) = start (ports2port t) (ports2port-IsPorts t)
  where
    start :
        (p : Ports)
        → IsPorts p
        → IsParsing
            (elim p [ null ↦ failed | null_dereference ↦ crashed | chain es ↦ more_maps ts es ])
    start null v = tt
    start null_dereference v = tt
    start (chain es) v = more_maps-IsParsing ts es v.0 v.1

-- Where `parse_portmap` returns 1, the chain has a node, and all its ports fit 16 bits.
pub parse_portmap-IsParsing : (ourstr : List ℕ) → IsParsing (parse_portmap ourstr)
unfolding parse_portmap
parse_portmap-IsParsing ourstr = first_map-IsParsing (tokens b',' ourstr)
