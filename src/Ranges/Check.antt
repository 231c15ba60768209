-- ===== src/Ranges/Check.antt =====
-- A printed list is parsed, and `check_list` finds what its items cover.
use tcpreplay.Prelude.{
  ℕ, ◌≡◌, ◌↔◌, ◌⊎◌, inl, inr, refl, arith, Bool, true, false, List, [], ◌∷◌, ◌++◌, some, All, Any,
  if◌then◌else◌, ap, ◌∙◌, map,
}
use tcpreplay.Libc.Tokens.{tokens, tokens-strtok, token_loop}
use tcpreplay.Libc.Cut.{strtok-found, strtok-end}
use tcpreplay.Ranges.{Range, parse_tokens, parse_first, parse_list, in_range, check_list}
use tcpreplay.Ranges.Parse.{
  Item, single, upward, between, text_of, IsItem, Covers, entry_of, print, text_of-Lacks,
  text_of-ne-nil, text_of-matches, range_of-text_of,
}

in_range-entry_of : (v : ℕ) (i : Item) → IsItem i → (in_range (entry_of i) v ≡ true) ↔ Covers v i
unfolding in_range
in_range-entry_of v (single n) h = ((λ t. ground arith), (λ c. ground arith))
in_range-entry_of v (between a b) h = ((λ t. ground arith), (λ c. ground arith))
in_range-entry_of v (upward a) h = ((λ t. ground arith), (λ c. ground arith))

or_lem :
    (a b : Bool) (P Q : Type 0)
    → ((a ≡ true) ↔ P)
    → ((b ≡ true) ↔ Q)
    → ((if a then true else b) ≡ true) ↔ (P ⊎ Q)
or_lem true b P Q i j = ((λ t. inl (i.0 refl)), (λ c. refl))
or_lem false b P Q i j = ((λ t. inr (j.0 t)), back)
  where
    back : P ⊎ Q → b ≡ true
    back (inl p) = cc (i.1 p)
    back (inr q) = j.1 q

check_list-entries :
    (v : ℕ) (is : List Item)
    → All IsItem is
    → (check_list (map entry_of is) v ≡ true) ↔ Any (Covers v) is
unfolding check_list
check_list-entries v [] h = ((λ t. cc), (λ n. absurd n))
check_list-entries v (i ∷ is) h =
    or_lem (in_range (entry_of i) v) (check_list (map entry_of is) v) (Covers v i)
      (Any (Covers v) is) (in_range-entry_of v i h.0) (check_list-entries v is h.1)

one_token :
    (i : Item) (ts : List (List ℕ)) (rs : List Range)
    → IsItem i
    → parse_tokens ts ≡ some rs
    → parse_tokens (text_of i ∷ ts) ≡ some (entry_of i ∷ rs)
unfolding parse_tokens
one_token i ts rs h e = rw (text_of-matches i, range_of-text_of i h, e) refl

tokens-last : (i : Item) → tokens b',' (text_of i) ≡ text_of i ∷ []
tokens-last i =
    tokens-strtok b',' (text_of i)
    ∙ ap (token_loop b',') (strtok-end b',' (text_of i) (text_of-ne-nil i) (text_of-Lacks i))
    ∙ (unfold tokens in refl)

tokens-first :
    (i : Item) (rest : List ℕ)
    → tokens b',' (text_of i ++ (b',' ∷ rest)) ≡ text_of i ∷ tokens b',' rest
tokens-first i rest =
    tokens-strtok b',' (text_of i ++ (b',' ∷ rest))
    ∙ ap (token_loop b',') (strtok-found b',' (text_of i) rest (text_of-ne-nil i) (text_of-Lacks i))

tokens-print : (i : Item) (js : List Item) → tokens b',' (print i js) ≡ map text_of (i ∷ js)
tokens-print i [] = tokens-last i
tokens-print i (j ∷ js) =
    tokens-first i (print j js) ∙ ap (λ ts. text_of i ∷ ts) (tokens-print j js)

parse_tokens-texts :
    (is : List Item) → All IsItem is → parse_tokens (map text_of is) ≡ some (map entry_of is)
parse_tokens-texts [] h = unfold parse_tokens in refl
parse_tokens-texts (i ∷ is) h =
    one_token i (map text_of is) (map entry_of is) h.0 (parse_tokens-texts is h.1)

-- A list of numbers, ranges and ranges without an upper end, whose numbers lie from 1 to 2 ^ 64 - 1,
-- parses, and `check_list` finds in it just the values that one of its items covers.
pub check_list-parse_list :
    (v : ℕ) (i : Item) (js : List Item)
    → All IsItem (i ∷ js)
    → (rs : List Range) × (parse_list (print i js) ≡ some rs)
      × ((check_list rs v ≡ true) ↔ Any (Covers v) (i ∷ js))
check_list-parse_list v i js h = (
  map entry_of (i ∷ js),
  (unfold parse_list in ap parse_first (tokens-print i js) ∙ parse_tokens-texts (i ∷ js) h),
  check_list-entries v (i ∷ js) h,
)
