-- ===== src/Mac/Laws.antt =====
-- MAC addresses are read back as they are written, and found in a list of them.
use tcpreplay.Prelude.{
  ℕ, suc, ◌+◌, ◌/◌, ◌%◌, ◌<◌, ◌≡◌, ◌≢◌, ◌⊎◌, ◌↔◌, refl, arith, true, false, List, [], ◌∷◌, ◌++◌,
  ◌==◌, length, set, drop, All, Any, inl, inr, ap, ◌∙◌, Bool-cases, map, leb,
}
use tcpreplay.Libc.{is_space, skip_spaces}
use tcpreplay.Libc.Hex.{hex_digit, ends_hex, is_hex, hex_value, strtol16-byte}
use tcpreplay.Libc.Tokens.{tokens, tokens-strtok, token_loop}
use tcpreplay.Libc.Cut.{Lacks, strtok-found, strtok-end}
use tcpreplay.Cache.{Dir, c2s, s2c}
use tcpreplay.Mac.{octet_ends, mac_octets, mac2hex, same_mac, mac_loop, macinstring}

-- Six bytes.
pub record Octets : Type 0 where
  pub a : ℕ
  pub b : ℕ
  pub c : ℕ
  pub d : ℕ
  pub e : ℕ
  pub f : ℕ

abbrev pub octets : Octets → List ℕ
octets m = m.a ∷ m.b ∷ m.c ∷ m.d ∷ m.e ∷ m.f ∷ []

abbrev pub IsOctets : Octets → Type 0
IsOctets m = (m.a < 256) × (m.b < 256) × (m.c < 256) × (m.d < 256) × (m.e < 256) × (m.f < 256)

-- `aa:bb:cc:dd:ee:ff`, with what follows.
abbrev pub print_octet : ℕ → List ℕ → List ℕ
print_octet b rest = hex_digit (b / 16) ∷ hex_digit (b % 16) ∷ rest

abbrev pub print_mac : Octets → List ℕ
print_mac m = print_octet m.a (
    b':'
    ∷ print_octet m.b (
        b':'
        ∷ print_octet m.c
            (b':' ∷ print_octet m.d (b':' ∷ print_octet m.e (b':' ∷ print_octet m.f [])))))

-- What may follow octet `i`.
abbrev Follows : ℕ → List ℕ → Type 0
Follows i rest = (ends_hex rest ≡ true) × (octet_ends i rest ≡ true)

colon-Follows : (i : ℕ) (rest : List ℕ) → Follows i (b':' ∷ rest)
unfolding ends_hex octet_ends is_hex hex_value
colon-Follows i rest = (refl, refl)

nothing-Follows : Follows 5 []
unfolding ends_hex octet_ends
nothing-Follows = (refl, refl)

not_all : (n : ℕ) → (n == suc (suc n)) ≡ false
not_all n = ground arith

octet_step :
    (n i b : ℕ) (rest dst : List ℕ)
    → b < 256
    → Follows i rest
    → mac_octets (suc n) i (print_octet b rest) dst
      ≡ mac_octets n (i + 1) (drop 1 rest) (set dst i b)
unfolding mac_octets
octet_step n i b rest dst h (e, k) =
    rw (strtol16-byte b rest h e) (
      rw (not_all (length rest), k) (let small : leb b 0xff ≡ true = ground arith in rw small refl))

no_space : (d : ℕ) (cs : List ℕ) → d < 16 → skip_spaces (hex_digit d ∷ cs) ≡ hex_digit d ∷ cs
unfolding skip_spaces is_space hex_digit
no_space d cs h = ground arith

-- A MAC as it is printed is read back, whatever was in the buffer.
pub mac2hex-print_mac :
    (m old : Octets) → IsOctets m → mac2hex (print_mac m) (octets old) 6 ≡ octets m
unfolding mac2hex
mac2hex-print_mac m old h = rw (no_space (m.a / 16) _ (omega arith)) (
    octet_step 5 0 m.a _ _ h.0 (colon-Follows 0 _)
    ∙ octet_step 4 1 m.b _ _ h.1 (colon-Follows 1 _)
    ∙ octet_step 3 2 m.c _ _ h.2 (colon-Follows 2 _)
    ∙ octet_step 2 3 m.d _ _ h.3 (colon-Follows 3 _)
    ∙ octet_step 1 4 m.e _ _ h.4 (colon-Follows 4 _)
    ∙ octet_step 0 5 m.f [] _ h.5 nothing-Follows
    ∙ (unfold mac_octets in refl))

-- A digit of a MAC is no comma.
digit_no_comma : (d : ℕ) → d < 16 → hex_digit d ≢ b','
unfolding hex_digit
digit_no_comma d h = ground arith

no_comma_high : (b : ℕ) → b < 256 → hex_digit (b / 16) ≢ b','
no_comma_high b h = digit_no_comma (b / 16) (omega arith)

no_comma_low : (b : ℕ) → b < 256 → hex_digit (b % 16) ≢ b','
no_comma_low b h = digit_no_comma (b % 16) (omega arith)

colon_no_comma : ◌≢◌ {A = ℕ} b':' b','
colon_no_comma e = absurd (omega arith)

print_mac-Lacks : (m : Octets) → IsOctets m → Lacks b',' (print_mac m)
print_mac-Lacks m h = (
  no_comma_high m.a h.0,
  (
    no_comma_low m.a h.0,
    (
      colon_no_comma,
      (
        no_comma_high m.b h.1,
        (
          no_comma_low m.b h.1,
          (
            colon_no_comma,
            (
              no_comma_high m.c h.2,
              (
                no_comma_low m.c h.2,
                (
                  colon_no_comma,
                  (
                    no_comma_high m.d h.3,
                    (
                      no_comma_low m.d h.3,
                      (
                        colon_no_comma,
                        (
                          no_comma_high m.e h.4,
                          (
                            no_comma_low m.e h.4,
                            (colon_no_comma, (no_comma_high m.f h.5, (no_comma_low m.f h.5, tt))),
                          ),
                        ),
                      ),
                    ),
                  ),
                ),
              ),
            ),
          ),
        ),
      ),
    ),
  ),
)

-- A list of MACs with commas between them.
abbrev pub print_macs : Octets → List Octets → List ℕ
print_macs m [] = print_mac m
print_macs m (n ∷ ns) = print_mac m ++ (b',' ∷ print_macs n ns)

tokens-print_macs :
    (m : Octets) (ms : List Octets)
    → All IsOctets (m ∷ ms)
    → tokens b',' (print_macs m ms) ≡ map print_mac (m ∷ ms)
tokens-print_macs m [] h =
    tokens-strtok b',' (print_mac m)
    ∙ ap (token_loop b',') (strtok-end b',' (print_mac m) (λ e. cc e) (print_mac-Lacks m h.0))
    ∙ ap (λ ts. print_mac m ∷ ts) (unfold tokens in refl)
tokens-print_macs m (n ∷ ns) h =
    tokens-strtok b',' (print_mac m ++ (b',' ∷ print_macs n ns))
    ∙ ap (token_loop b',')
        (strtok-found b',' (print_mac m) (print_macs n ns) (λ e. cc e) (print_mac-Lacks m h.0))
    ∙ ap (λ ts. print_mac m ∷ ts) (tokens-print_macs n ns h.1)

same_mac_iff : (xs ys : List ℕ) → (same_mac xs ys ≡ true) ↔ (xs ≡ ys)
unfolding same_mac
same_mac_iff [] [] = ((λ e. refl), (λ e. refl))
same_mac_iff [] (y ∷ ys) = ((λ e. cc e), (λ e. cc e))
same_mac_iff (x ∷ xs) [] = ((λ e. cc e), (λ e. cc e))
same_mac_iff (x ∷ xs) (y ∷ ys) =
    let ih = same_mac_iff xs ys in ((λ e. ground (arith, ih.0)), (λ e. ground (arith, ih.1)))

-- The packet goes out primary, or secondary, and the first exactly where `P` holds.
abbrev pub Goes : Type 0 → Dir → Type 0
Goes P d = ((d ≡ c2s) × P) ⊎ ((d ≡ s2c) × ¬ P)

mac_loop_lem :
    (ms : List Octets) (old : Octets) (mac : List ℕ)
    → All IsOctets ms
    → Goes (Any (λ m. octets m ≡ mac) ms) (mac_loop (map print_mac ms) (octets old) mac)
unfolding mac_loop
mac_loop_lem [] old mac h = inr (refl, λ a. absurd a)
mac_loop_lem (m ∷ ms) old mac h =
    rw (mac2hex-print_mac m old h.0) (elim (Bool-cases (same_mac mac (octets m))) [
      | inl e ↦ rw e (inl (refl, inl (cc ((same_mac_iff mac (octets m)).0 e))))
      | inr e ↦ rw e (elim (mac_loop_lem ms m mac h.1) [
        | inl (c, a) ↦ inl (c, inr a)
        | inr (c, none_of) ↦ inr (
          c,
          λ a. elim a [ inl p ↦ cc ((same_mac_iff mac (octets m)).1 (cc p)) | inr q ↦ none_of q ],
        )
      ])
    ])

-- With a list of MAC addresses of six bytes, as they are printed, `macinstring` sends a packet out
-- primary, as the traffic of a client, if its address is one of them, and secondary if not: the
-- manual of tcpprep calls the first a server.
pub macinstring_lem :
    (mac m : Octets) (ms : List Octets)
    → All IsOctets (m ∷ ms)
    → Goes (Any (λ x. octets x ≡ octets mac) (m ∷ ms)) (macinstring (print_macs m ms) (octets mac))
unfolding macinstring
macinstring_lem mac m ms h =
    rw (tokens-print_macs m ms h)
      (mac_loop_lem (m ∷ ms) (record { a = 0; b = 0; c = 0; d = 0; e = 0; f = 0 }) (octets mac) h)
