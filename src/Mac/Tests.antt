-- ===== src/Mac/Tests.antt =====
-- MAC addresses at concrete texts.
use tcpreplay.Prelude.{ℕ, ◌≡◌, refl, arith, List, [], ◌∷◌, ◌++◌, Any}
use tcpreplay.Cache.{c2s}
use tcpreplay.Libc.{skip_spaces, is_space, long_of}
use tcpreplay.Libc.Tokens.{strtok, skip_delims, next_token, cut_token, tokens}
use tcpreplay.Libc.Hex.{
  strtol16, hex_after_spaces, signed_hex, starts_hex, skip_prefix, scan_hex, is_hex, hex_value,
  hex_digit,
}
use tcpreplay.Mac.{
  mac_loop, mac_octets, octet_ends, same_mac, mac2hex, macinstring, dualmac2hex, null_read, result,
}
use tcpreplay.Mac.Laws.{Octets, octets, print_mac, print_macs, Goes, macinstring_lem}

abbrev one : Octets
one = record { a = 0; b = 0x1b; c = 0x21; d = 0xff; e = 0x0a; f = 1 }

abbrev two : Octets
two = record { a = 2; b = 0; c = 0; d = 0; e = 0; f = 0xfe }

macinstring_lem_example :
    Goes
      (Any (λ x. octets x ≡ octets two) (one ∷ two ∷ []))
      (macinstring (print_macs one (two ∷ [])) (octets two))
macinstring_lem_example = macinstring_lem two one (two ∷ []) (omega arith)

-- A MAC behind a comma.
abbrev behind_comma : List ℕ
behind_comma = b',' ∷ print_mac two

-- With nothing in front of the comma, the second address is taken for the first.
only_second :
    dualmac2hex behind_comma (octets one) (octets one) 6 ≡ result 1 (octets two) (octets one)
unfolding dualmac2hex strtok skip_delims next_token cut_token mac2hex mac_octets octet_ends
    skip_spaces is_space strtol16 hex_after_spaces signed_hex starts_hex skip_prefix scan_hex is_hex
    hex_value long_of hex_digit
only_second = refl

only_commas : dualmac2hex (b',' ∷ b',' ∷ []) (octets one) (octets one) 6 ≡ null_read
unfolding dualmac2hex strtok skip_delims next_token
only_commas = refl

-- The second token `02:` keeps the other five octets of the token before, and matches an address
-- that is not listed.
keeps_old :
    macinstring
      (print_mac one ++ (b',' ∷ b'0' ∷ b'2' ∷ b':' ∷ []))
      (2 ∷ 0x1b ∷ 0x21 ∷ 0xff ∷ 0x0a ∷ 1 ∷ [])
    ≡ c2s
unfolding macinstring mac_loop same_mac tokens mac2hex mac_octets octet_ends skip_spaces is_space
    strtol16 hex_after_spaces signed_hex starts_hex skip_prefix scan_hex is_hex hex_value long_of
    hex_digit
keeps_old = refl
