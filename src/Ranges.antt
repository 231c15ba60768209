-- ===== src/Ranges.antt =====
-- Lists of numbers and ranges, as in `1,3-5,7-`: src/common/list.c.
pub mod Parse
pub mod Check
mod Tests
use tcpreplay.Prelude.{
  ℕ, ◌+◌, ◌-◌, ◌*◌, ◌^◌, Bool, true, false, List, [], ◌∷◌, Option, none, some, leb, ltb, ◌==◌, ◌&&◌,
  ◌||◌, not, if◌then◌else◌, min,
}
use tcpreplay.Libc.{is_digit, is_space, skip_spaces, scan_digits}
use tcpreplay.Libc.Tokens.{tokens, cut_token, contains}

-- `tcpr_list_t` less its `next`.
pub record Range : Type 0 where
  pub min_value : ℕ
  pub max_value : ℕ

unfoldable pub all_of : (ℕ → Bool) → List ℕ → Bool
all_of test [] = true
all_of test (c ∷ cs) = test c && all_of test cs

-- `[0-9]+`
unfoldable pub some_digits : List ℕ → Bool
some_digits [] = false
some_digits (c ∷ cs) = all_of is_digit (c ∷ cs)

-- `^[0-9]+(-([0-9]+|\s*))?$`
unfoldable pub regex_matches : List ℕ → Bool
regex_matches token =
    if contains b'-' token
    then some_digits (cut_token b'-' token).0
      && (some_digits (cut_token b'-' token).1 || all_of is_space (cut_token b'-' token).1)
    else some_digits token

unfoldable pub scan_octal : ℕ → List ℕ → ℕ
scan_octal acc [] = acc
scan_octal acc (c ∷ cs) =
    let more = scan_octal (acc * 8 + (c - b'0')) cs in
    if leb b'0' c && leb c b'7' then more else acc

unfoldable pub unsigned_of : List ℕ → ℕ
unsigned_of [] = 0
unsigned_of (c ∷ cs) =
    min (if c == b'0' then scan_octal 0 cs else (scan_digits 0 (c ∷ cs)).0) (2 ^ 64 - 1)

-- `strtoull(s, NULL, 0)` on a text with neither a sign nor `0x`, as the regex leaves it: a leading
-- zero makes the number octal, and out of range it is `ULLONG_MAX`.
unfoldable pub strtoull0 : List ℕ → ℕ
strtoull0 s = unsigned_of (skip_spaces s)

abbrev pub second_value : List ℕ → ℕ
second_value [] = 0
second_value (c ∷ cs) = strtoull0 (c ∷ cs)

-- `second` is `none` where there is no dash.
unfoldable pub add_to_list : List ℕ → Option (List ℕ) → Range
add_to_list first none = record { min_value = strtoull0 first; max_value = strtoull0 first }
add_to_list first (some second) = record {
  min_value = strtoull0 first;
  max_value = second_value second;
}

-- The dash becomes a NUL, and `second` points behind it.
unfoldable pub range_of : List ℕ → Range
range_of token =
    if contains b'-' token
    then add_to_list (cut_token b'-' token).0 (some (cut_token b'-' token).1)
    else add_to_list token none

abbrev pub prepend : Range → Option (List Range) → Option (List Range)
prepend r none = none
prepend r (some rs) = some (r ∷ rs)

unfoldable pub parse_tokens : List (List ℕ) → Option (List Range)
parse_tokens [] = some []
parse_tokens (t ∷ ts) =
    let rest = parse_tokens ts in if regex_matches t then prepend (range_of t) rest else none

-- With no token the first test fails.
abbrev pub parse_first : List (List ℕ) → Option (List Range)
parse_first [] = none
parse_first (t ∷ ts) = parse_tokens (t ∷ ts)

-- `none` is a return of 0.
unfoldable pub parse_list : List ℕ → Option (List Range)
parse_list ourstr = parse_first (tokens b',' ourstr)

unfoldable pub in_range : Range → ℕ → Bool
in_range r value =
    if not (r.min_value == 0) && not (r.max_value == 0)
    then leb r.min_value value && leb value r.max_value
    else if r.min_value == 0
    then leb value r.max_value
    else if r.max_value == 0
    then leb r.min_value value
    else false

unfoldable pub check_list : List Range → ℕ → Bool
check_list [] value = false
check_list (r ∷ rs) value =
    let rest = check_list rs value in if in_range r value then true else rest
