-- ===== src/Edit/Header.antt =====
-- The edits of single fields, `randomize_ipv4` of src/tcpedit/edit_packet.c, and the type of service
-- that `tcpedit_packet` of src/tcpedit/tcpedit.c sets.
pub mod Laws
use tcpreplay.Prelude.{
  ℕ, ◌+◌, ◌*◌, Bool, true, false, not, Option, none, some, ltb, ◌&&◌, ◌||◌, if◌then◌else◌, u8,
}
use tcpreplay.Checksum.{csum_replace2}
use tcpreplay.Portmap.Rewrite.{Code, ok, error}
use tcpreplay.Edit.{
  Tcpedit, Ipv4Hdr, is_multicast_ipv4, randomize_ipv4_addr, Side, source, destination, addr_at,
  store_addr,
}
use tcpreplay.Edit.Map.{then_some}

-- `*((uint16_t *)ip_hdr)`
abbrev pub first_word : Ipv4Hdr → ℕ
first_word h = h.ip_hl + h.ip_v * 16 + h.ip_tos * 256

abbrev pub with_tos : ℕ → Ipv4Hdr → Ipv4Hdr
with_tos tos h = record h { ip_tos = u8 tos }

abbrev pub tos_or_none : Option ℕ → Ipv4Hdr → Ipv4Hdr
tos_or_none none h = h
tos_or_none (some tos) h = record (with_tos tos h) {
  ip_sum = csum_replace2 h.ip_sum (first_word h) (first_word (with_tos tos h));
}

unfoldable pub set_tos : Tcpedit → Ipv4Hdr → Ipv4Hdr
set_tos t h = tos_or_none t.tos h

-- An address is left if it is a multicast address that is skipped.
unfoldable pub randomize_side : Tcpedit → ℕ → Side → Ipv4Hdr → Option Ipv4Hdr
randomize_side t l3len side h =
    if t.skip_broadcast && not (is_multicast_ipv4 (addr_at side h)) || not t.skip_broadcast
    then store_addr side (randomize_ipv4_addr t (addr_at side h)) l3len h
    else some h

unfoldable pub randomize_ipv4 : Tcpedit → Ipv4Hdr → ℕ → Option (Code × Ipv4Hdr)
randomize_ipv4 t h l3len =
    if ltb l3len (h.ip_hl * 4)
    then some (error, h)
    else then_some (randomize_side t l3len destination h)
        (λ g. then_some (randomize_side t l3len source g) (λ f. some (ok, f)))
