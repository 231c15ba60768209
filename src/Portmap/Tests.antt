-- ===== src/Portmap/Tests.antt =====
-- Port maps at concrete texts, and a header that they rewrite.
use tcpreplay.Prelude.{ℕ, ◌≡◌, refl, arith, List, [], ◌∷◌, ◌++◌, swap16, if◌then◌else◌, leb, ◌&&◌}
use tcpreplay.Libc.{strtol10}
use tcpreplay.Libc.Tokens.{tokens, strtok, contains}
use tcpreplay.Libc.Decimal.{decimal}
use tcpreplay.Portmap.{
  Entry, chain, ports2port, parsed, parse_portmap, map_port, both_parts, from_part, single_of,
  more_maps,
}
use tcpreplay.Portmap.Parse.{range_text, ports2port-range}
use tcpreplay.Portmap.Rewrite.{Header, ok, proto_tcp, rewrite_ports}
use tcpreplay.Portmap.Rewrite.Laws.{IsHeader, Verifies, Mapped, rewrite_ports_tcp}

-- 80 to 8080, in network byte order.
abbrev web : List Entry
web = record { from = swap16 80; to = swap16 8080 } ∷ []

abbrev text : List ℕ
text = b'8' ∷ b'0' ∷ b':' ∷ b'8' ∷ b'0' ∷ b'8' ∷ b'0' ∷ []

reads_text : parse_portmap text ≡ parsed web
unfolding parse_portmap tokens ports2port strtok both_parts contains strtol10 from_part single_of
    more_maps
reads_text = refl

-- The checksum of a segment whose other words add up to 1000, from port 80 to port 1234.
abbrev segment : Header
segment = record { sport = swap16 80; dport = swap16 1234; sum = 55826 }

segment-Verifies : Verifies 1000 segment
segment-Verifies = refl

ports2port-range_example :
    (es : List Entry) × (ports2port (range_text 1000 2000 ++ (b':' ∷ decimal 80)) ≡ chain es)
    × (map_port es (swap16 1500) ≡ swap16 (if leb 1000 1500 && leb 1500 2000 then 80 else 1500))
ports2port-range_example =
    ports2port-range 1000 2000 80 1500 (omega arith) (omega arith) (omega arith) (omega arith)

rewrite_ports_tcp_example :
    let (code, h) = rewrite_ports web proto_tcp segment 20 in
    (code ≡ ok) × Mapped web segment h × IsHeader h × Verifies 1000 h
rewrite_ports_tcp_example =
    rewrite_ports_tcp web 1000 20 segment (omega arith) (omega arith) segment-Verifies
