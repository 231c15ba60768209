-- ===== src/Prelude/Words.antt =====
-- Machine words as native numbers: casts to the fixed widths, shifts, complements.
use Prim.Native.Nat.{ℕ, ◌+◌, ◌-◌, ◌*◌, ◌/◌, ◌%◌, ◌^◌}

abbrev pub u8 : ℕ → ℕ
u8 n = n % 2 ^ 8

abbrev pub u16 : ℕ → ℕ
u16 n = n % 2 ^ 16

abbrev pub u32 : ℕ → ℕ
u32 n = n % 2 ^ 32

abbrev pub u64 : ℕ → ℕ
u64 n = n % 2 ^ 64

infixl 75 ◌<<<◌ ◌>>>◌
abbrev pub ◌<<<◌ : ℕ → ℕ → ℕ
x <<< k = x * 2 ^ k

abbrev pub ◌>>>◌ : ℕ → ℕ → ℕ
x >>> k = x / 2 ^ k

-- `~x`, cast to 16 and to 32 bits.
abbrev pub not16 : ℕ → ℕ
not16 x = 0xffff - x % 2 ^ 16

abbrev pub not32 : ℕ → ℕ
not32 x = 0xffff_ffff - x % 2 ^ 32

-- `htons` and `ntohs` on a little-endian host: the two bytes change places.
abbrev pub swap16 : ℕ → ℕ
swap16 x = x % 256 * 256 + x / 256 % 256

-- `htonl` and `ntohl` on a little-endian host.
abbrev pub swap32 : ℕ → ℕ
swap32 x = x % 256 * 16777216 + x / 256 % 256 * 65536 + x / 65536 % 256 * 256 + x / 16777216 % 256
