-- ===== src/Cache.antt =====
-- The tcpprep cache of src/common/cache.c and src/common/cache.h: two bits for each packet, kept in
-- a chain of blocks while tcpprep runs and in one flat buffer when tcpreplay reads it back.
pub mod Slots
pub mod Blocks
pub mod File
mod Tests
use tcpreplay.Prelude.{
  ℕ, ◌+◌, ◌-◌, ◌*◌, ◌/◌, ◌%◌, ◌^◌, Bool, List, [], ◌∷◌, ◌++◌, Option, none, some, u8, u32, ltb,
  ◌==◌, if◌then◌else◌, get_or, set, replicate, length, bit_and,
}

-- `tcpr_dir_t`
pub data Dir : Type 0 where
  error nosend c2s s2c : Dir

-- `SEND` and `DONT_SEND`
abbrev pub send_flag : ℕ
send_flag = 1

abbrev pub dont_send : ℕ
dont_send = 0

abbrev pub cache_data_size : ℕ
cache_data_size = 255

abbrev pub packets_per_byte : ℕ
packets_per_byte = 4

abbrev pub bits_per_packet : ℕ
bits_per_packet = 2

-- `struct tcpr_cache_s` less its `next`: the chain is a list.
pub record Block : Type 0 where
  pub bytes : List ℕ
  pub packets : ℕ

-- `*cachedata` and the static `lastcache` once both are set: the blocks in front of `lastcache`,
-- and the block that it points to. Nothing hangs behind that one.
pub record Chain : Type 0 where
  pub before : List Block
  pub last : Block

-- `safe_malloc` hands out zeroed memory.
pub new_cache : Block
new_cache = record { bytes = replicate cache_data_size 0; packets = 0 }

-- The block that takes the next packet: a first one, the last one, or a new one behind it.
pub room_for_one : Option Chain → Chain
unfolding new_cache
room_for_one none = record { before = []; last = new_cache }
room_for_one (some c) =
    if ltb (cache_data_size * packets_per_byte) (u32 (c.last.packets + 1))
    then record { before = c.before ++ (c.last ∷ []); last = new_cache }
    else c

abbrev pub is_c2s : Dir → Bool
is_c2s error = Bool.false
is_c2s nosend = Bool.false
is_c2s c2s = Bool.true
is_c2s s2c = Bool.false

-- The `u_char` that `*byte` is after the two additions.
pub mark : ℕ → ℕ → Dir → ℕ
mark byte bit interface =
    let sent = u8 (byte + u8 (2 ^ bit)) in
    if is_c2s interface then u8 (sent + u8 (2 ^ (bit - 1))) else sent

-- `lastcache->packets++`, and the bits of the packet if it is sent.
pub record_packet : ℕ → Dir → Block → Block
unfolding mark
record_packet send interface b =
    let packets = u32 (b.packets + 1) in
    let index = (packets - 1) / packets_per_byte in
    let bit = (packets - 1) % packets_per_byte * bits_per_packet + 1 in
    if send == send_flag
    then record {
      bytes = set b.bytes index (mark (get_or b.bytes index 0) bit interface);
      packets = packets;
    }
    else record { bytes = b.bytes; packets = packets }

-- The direction that `add_cache` returns.
unfoldable pub add_result : ℕ → Dir → Dir
add_result send interface =
    if send == send_flag then (if is_c2s interface then c2s else s2c) else nosend

pub add_cache : Option Chain → ℕ → Dir → Chain × Dir
unfolding room_for_one record_packet add_result
add_cache cachedata send interface =
    let c = room_for_one cachedata in
    (record c { last = record_packet send interface c.last }, add_result send interface)

-- What `check_cache` does: it exits on packet 0, and reads past the buffer on a packet that the
-- buffer does not hold.
pub data Checked : Type 0 where
  exits out_of_range : Checked
  found : Dir → Checked

-- A `char` as the `int` that it is promoted to (32 bits, two's complement).
unfoldable pub promote : ℕ → ℕ
promote c = if ltb c 128 then c else c + 0xffff_ff00

-- `cachedata[index] & (char)(1 << bit)`, as a test.
unfoldable pub bit_test : ℕ → ℕ → Bool
unfolding promote
bit_test byte bit =
    if bit_and (promote byte) (promote (u8 (2 ^ bit))) == 0 then Bool.false else Bool.true

unfoldable pub check_byte : ℕ → ℕ → Dir
unfolding bit_test
check_byte byte bit =
    if bit_test byte bit then (if bit_test byte (bit - 1) then c2s else s2c) else nosend

unfoldable pub check_cache : List ℕ → ℕ → Checked
unfolding check_byte
check_cache cachedata packetid =
    let index = (packetid - 1) / packets_per_byte in
    let bit = u32 ((packetid - 1) % packets_per_byte * bits_per_packet) + 1 in
    if packetid == 0
    then exits
    else if ltb index (length cachedata)
    then found (check_byte (get_or cachedata index 0) bit)
    else out_of_range
