-- ===== src/Libc/Cut.antt =====
-- Texts that lack the delimiter, cut by `strtok_r` and searched by `strchr`.
use tcpreplay.Prelude.{
  ℕ, ◌≡◌, ◌≢◌, refl, arith, true, false, List, [], ◌∷◌, ◌++◌, some, none, ◌==◌, All, ap, ◌∙◌,
}
use tcpreplay.Libc.Tokens.{strtok, cut_token, next_token, skip_delims, contains}
use tcpreplay.Libc.Decimal.{IsDigit, decimal, decimal-IsDigit}

abbrev pub Lacks : ℕ → List ℕ → Type 0
Lacks d xs = All (λ c. c ≢ d) xs

digits-Lacks : (d : ℕ) (xs : List ℕ) → ¬ IsDigit d → All IsDigit xs → Lacks d xs
digits-Lacks d [] no_digit h = tt
digits-Lacks d (x ∷ xs) no_digit h =
    ((λ e. no_digit (rw (← e) h.0)), digits-Lacks d xs no_digit h.1)

pub decimal-Lacks : (d n : ℕ) → ¬ IsDigit d → Lacks d (decimal n)
decimal-Lacks d n h = digits-Lacks d (decimal n) h (decimal-IsDigit n)

pub Lacks-append : (d : ℕ) (xs ys : List ℕ) → Lacks d xs → Lacks d ys → Lacks d (xs ++ ys)
Lacks-append d [] ys h k = k
Lacks-append d (x ∷ xs) ys h k = (h.0, Lacks-append d xs ys h.1 k)

not_eq : (c d : ℕ) → c ≢ d → (c == d) ≡ false
not_eq c d h = ground arith

eq_self : (d : ℕ) → (d == d) ≡ true
eq_self d = ground arith

pub cut_token-found :
    (d : ℕ) (xs ys : List ℕ) → Lacks d xs → cut_token d (xs ++ (d ∷ ys)) ≡ (xs, ys)
unfolding cut_token
cut_token-found d [] ys h = rw (eq_self d)
cut_token-found d (x ∷ xs) ys h = rw (not_eq x d h.0, cut_token-found d xs ys h.1)

cut_token-end : (d : ℕ) (xs : List ℕ) → Lacks d xs → cut_token d xs ≡ (xs, [])
unfolding cut_token
cut_token-end d [] h = refl
cut_token-end d (x ∷ xs) h = rw (not_eq x d h.0, cut_token-end d xs h.1)

strtok-cons : (d c : ℕ) (cs : List ℕ) → c ≢ d → strtok d (c ∷ cs) ≡ some (cut_token d (c ∷ cs))
unfolding strtok skip_delims next_token
strtok-cons d c cs h = rw (not_eq c d h) (rw (not_eq c d h))

-- The first token ends at the first delimiter.
pub strtok-found :
    (d : ℕ) (xs ys : List ℕ) → xs ≢ [] → Lacks d xs → strtok d (xs ++ (d ∷ ys)) ≡ some (xs, ys)
strtok-found d [] ys ne h = absurd (ne refl)
strtok-found d (x ∷ xs) ys ne h =
    strtok-cons d x (xs ++ (d ∷ ys)) h.0 ∙ ap some (cut_token-found d (x ∷ xs) ys h)

pub strtok-end : (d : ℕ) (xs : List ℕ) → xs ≢ [] → Lacks d xs → strtok d xs ≡ some (xs, [])
strtok-end d [] ne h = absurd (ne refl)
strtok-end d (x ∷ xs) ne h = strtok-cons d x xs h.0 ∙ ap some (cut_token-end d (x ∷ xs) h)

pub strtok-nil : (d : ℕ) → strtok d [] ≡ none
unfolding strtok skip_delims next_token
strtok-nil d = refl

pub contains-Lacks : (d : ℕ) (xs : List ℕ) → Lacks d xs → contains d xs ≡ false
unfolding contains
contains-Lacks d [] h = refl
contains-Lacks d (x ∷ xs) h = rw (not_eq x d h.0, contains-Lacks d xs h.1)

pub contains-found : (d : ℕ) (xs ys : List ℕ) → contains d (xs ++ (d ∷ ys)) ≡ true
unfolding contains
contains-found d [] ys = rw (eq_self d)
contains-found d (x ∷ xs) ys = rw (contains-found d xs ys) (ground arith)
