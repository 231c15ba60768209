-- ===== src/Ranges/Parse.antt =====
-- The items of a list as texts, and what is read from them.
use tcpreplay.Prelude.{
  ℕ, ◌^◌, ◌≤◌, ◌<◌, ◌≡◌, ◌≢◌, refl, arith, true, List, [], ◌∷◌, ◌++◌, some, All, ◌||◌, ◌∙◌,
}
use tcpreplay.Libc.{is_digit, is_space, skip_spaces, scan_digits}
use tcpreplay.Libc.Tokens.{cut_token}
use tcpreplay.Libc.Decimal.{
  decimal, IsDigit, decimal-ne-nil, decimal-IsDigit, decimal-StartsNonzero, scan_digits-decimal,
  StartsNonzero,
}
use tcpreplay.Libc.Cut.{
  Lacks, decimal-Lacks, Lacks-append, cut_token-found, contains-Lacks, contains-found,
}
use tcpreplay.Ranges.{
  Range, all_of, some_digits, regex_matches, unsigned_of, strtoull0, add_to_list, range_of,
}

-- What can be asked for: a number, a range with both ends, and one without an upper end.
pub data Item : Type 0 where
  single upward : ℕ → Item
  between : ℕ → ℕ → Item

abbrev pub text_of : Item → List ℕ
text_of (single n) = decimal n
text_of (between a b) = decimal a ++ (b'-' ∷ decimal b)
text_of (upward a) = decimal a ++ (b'-' ∷ [])

-- All numbers lie from 1 to the largest that the type holds.
abbrev pub IsCounter : ℕ → Type 0
IsCounter n = (0 < n) × (n < 2 ^ 64)

abbrev pub IsItem : Item → Type 0
IsItem (single n) = IsCounter n
IsItem (between a b) = IsCounter a × IsCounter b
IsItem (upward a) = IsCounter a

abbrev pub Covers : ℕ → Item → Type 0
Covers v (single n) = v ≡ n
Covers v (between a b) = (a ≤ v) × (v ≤ b)
Covers v (upward a) = a ≤ v

abbrev pub entry_of : Item → Range
entry_of (single n) = record { min_value = n; max_value = n }
entry_of (between a b) = record { min_value = a; max_value = b }
entry_of (upward a) = record { min_value = a; max_value = 0 }

-- The items with commas between them.
abbrev pub print : Item → List Item → List ℕ
print i [] = text_of i
print i (j ∷ js) = text_of i ++ (b',' ∷ print j js)

skip_spaces-digit : (c : ℕ) (cs : List ℕ) → IsDigit c → skip_spaces (c ∷ cs) ≡ c ∷ cs
unfolding skip_spaces is_space
skip_spaces-digit c cs h = ground arith

unsigned_of-nonzero :
    (c : ℕ) (cs : List ℕ) (n : ℕ)
    → c ≢ b'0'
    → scan_digits 0 (c ∷ cs) ≡ (n, [])
    → n < 2 ^ 64
    → unsigned_of (c ∷ cs) ≡ n
unfolding unsigned_of
unsigned_of-nonzero c cs n ne e h = rw e (ground arith)

pub strtoull0-decimal : (n : ℕ) → IsCounter n → strtoull0 (decimal n) ≡ n
unfolding strtoull0
strtoull0-decimal n h = go (decimal-StartsNonzero n h.0) (decimal-IsDigit n) (scan_digits-decimal n)
  where
    go :
        StartsNonzero (decimal n)
        → All IsDigit (decimal n)
        → scan_digits 0 (decimal n) ≡ (n, [])
        → unsigned_of (skip_spaces (decimal n)) ≡ n
    go (c, cs, e, ne) digits scan =
        let d : IsDigit c = (rw e at digits).0 in
        rw (e, skip_spaces-digit c cs d) (unsigned_of-nonzero c cs n ne (rw e at scan) h.1)

all_of-IsDigit : (xs : List ℕ) → All IsDigit xs → all_of is_digit xs ≡ true
unfolding all_of is_digit
all_of-IsDigit [] h = refl
all_of-IsDigit (x ∷ xs) h = rw (all_of-IsDigit xs h.1) (ground arith)

pub some_digits-decimal : (n : ℕ) → some_digits (decimal n) ≡ true
some_digits-decimal n = go (decimal n) (decimal-ne-nil n) (decimal-IsDigit n)
  where
    go : (xs : List ℕ) → xs ≢ [] → All IsDigit xs → some_digits xs ≡ true
    go [] ne h = absurd (ne refl)
    go (x ∷ xs) ne h = unfold some_digits in all_of-IsDigit (x ∷ xs) h

no_minus : ¬ IsDigit b'-'
no_minus h = absurd (omega arith)

no_comma : ¬ IsDigit b','
no_comma h = absurd (omega arith)

pub text_of-Lacks : (i : Item) → Lacks b',' (text_of i)
text_of-Lacks (single n) = decimal-Lacks b',' n no_comma
text_of-Lacks (between a b) =
    Lacks-append b',' (decimal a) (b'-' ∷ decimal b) (decimal-Lacks b',' a no_comma)
      ((λ e. absurd (omega arith)), decimal-Lacks b',' b no_comma)
text_of-Lacks (upward a) =
    Lacks-append b',' (decimal a) (b'-' ∷ []) (decimal-Lacks b',' a no_comma)
      ((λ e. absurd (omega arith)), tt)

append-ne-nil : (xs ys : List ℕ) → xs ≢ [] → xs ++ ys ≢ []
append-ne-nil [] ys h e = h refl
append-ne-nil (x ∷ xs) ys h e = cc e

pub text_of-ne-nil : (i : Item) → text_of i ≢ []
text_of-ne-nil (single n) = decimal-ne-nil n
text_of-ne-nil (between a b) = append-ne-nil (decimal a) (b'-' ∷ decimal b) (decimal-ne-nil a)
text_of-ne-nil (upward a) = append-ne-nil (decimal a) (b'-' ∷ []) (decimal-ne-nil a)

-- A token with a dash.
module _ (a : ℕ) (after : List ℕ) where
  cut : cut_token b'-' (decimal a ++ (b'-' ∷ after)) ≡ (decimal a, after)
  cut = cut_token-found b'-' (decimal a) after (decimal-Lacks b'-' a no_minus)

  dash_matches :
      (some_digits after || all_of is_space after) ≡ true
      → regex_matches (decimal a ++ (b'-' ∷ after)) ≡ true
  dash_matches h =
      unfold regex_matches in
      rw (contains-found b'-' (decimal a) after, cut, some_digits-decimal a) h

  dash_range : range_of (decimal a ++ (b'-' ∷ after)) ≡ add_to_list (decimal a) (some after)
  dash_range = unfold range_of in rw (contains-found b'-' (decimal a) after, cut) refl

pub text_of-matches : (i : Item) → regex_matches (text_of i) ≡ true
text_of-matches (single n) =
    unfold regex_matches in
    rw (contains-Lacks b'-' (decimal n) (decimal-Lacks b'-' n no_minus)) (some_digits-decimal n)
text_of-matches (between a b) = dash_matches a (decimal b) (rw (some_digits-decimal b) refl)
text_of-matches (upward a) = dash_matches a [] (unfold some_digits all_of in refl)

second_of :
    (first xs : List ℕ)
    → xs ≢ []
    → add_to_list first (some xs) ≡ record { min_value = strtoull0 first; max_value = strtoull0 xs }
unfolding add_to_list
second_of first [] ne = absurd (ne refl)
second_of first (x ∷ xs) ne = refl

pub range_of-text_of : (i : Item) → IsItem i → range_of (text_of i) ≡ entry_of i
range_of-text_of (single n) h =
    unfold range_of add_to_list in
    rw (contains-Lacks b'-' (decimal n) (decimal-Lacks b'-' n no_minus), strtoull0-decimal n h) refl
range_of-text_of (between a b) h =
    dash_range a (decimal b)
    ∙ second_of (decimal a) (decimal b) (decimal-ne-nil b)
    ∙ (rw (strtoull0-decimal a h.0, strtoull0-decimal b h.1) refl)
range_of-text_of (upward a) h =
    dash_range a [] ∙ (unfold add_to_list in rw (strtoull0-decimal a h) refl)
