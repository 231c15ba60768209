-- ===== src/Cache/File.antt =====
-- `write_cache` and `read_cache` of src/common/cache.c over a file as a list of bytes. `open`,
-- `read` and `write` are the operating system's: parameters.
pub mod Layout
pub mod RoundTrip
pub mod Safety
use tcpreplay.Prelude.{
  ℕ, ◌+◌, ◌-◌, ◌*◌, ◌/◌, ◌%◌, ◌^◌, Bool, true, false, List, [], ◌∷◌, ◌++◌, Option, none, some, u8,
  u16, u32, u64, ltb, ◌==◌, if◌then◌else◌, length, take, drop, get_or, ℤ, pos, negsuc,
}
use tcpreplay.Libc.{strtol10}
use tcpreplay.Cache.{Block, Chain, packets_per_byte}

-- The reasons of `errx`.
pub data Exit : Type 0 where
  open_failed read_failed short_header bad_magic bad_version bad_comment_length : Exit
  short_comment bad_stride short_data short_write : Exit

pub data Run {ℓ} (A : Type ℓ) : Type ℓ where
  ok : A → Run A
  exits : Exit → Run A

infixl 5 ◌>>=◌ ◌>>◌
abbrev pub ◌>>=◌ {ℓ κ} : {A : Type ℓ} {B : Type κ} → Run A → (A → Run B) → Run B
exits why >>= next = exits why
ok done >>= next = next done

abbrev pub ◌>>◌ {ℓ} : {B : Type ℓ} → Run (Unit {0}) → Run B → Run B
m >> k = m >>= λ _. k

-- Exit for this reason if the test holds.
abbrev pub exit_if : Bool → Exit → Run (Unit {0})
exit_if true e = exits e
exit_if false e = ok tt

-- The system calls: how many bytes of the buffer are written behind the file, and how many of the
-- bytes asked for are read of what the file has left; `none` is -1.
pub record Os : Type 0 where
  pub write : List ℕ → List ℕ → Option ℕ
  pub read : List ℕ → ℕ → Option ℕ

-- `htons` and `htonll`, as the bytes that the field then holds.
abbrev pub be16 : ℕ → List ℕ
be16 x = x / 256 % 256 ∷ x % 256 ∷ []

abbrev pub be64 : ℕ → List ℕ
be64 x =
    x / 2 ^ 56 % 256
    ∷ x / 2 ^ 48 % 256
    ∷ x / 2 ^ 40 % 256
    ∷ x / 2 ^ 32 % 256
    ∷ x / 2 ^ 24 % 256
    ∷ x / 2 ^ 16 % 256
    ∷ x / 256 % 256
    ∷ x % 256
    ∷ []

abbrev pub byte_at : List ℕ → ℕ → ℕ
byte_at bytes i = get_or bytes i 0

-- `ntohs` and `ntohll` of the field at an offset.
abbrev pub get_be16 : List ℕ → ℕ → ℕ
get_be16 h i = byte_at h i * 256 + byte_at h (i + 1)

abbrev pub get_be64 : List ℕ → ℕ → ℕ
get_be64 h i =
    byte_at h i * 2 ^ 56
    + byte_at h (i + 1) * 2 ^ 48
    + byte_at h (i + 2) * 2 ^ 40
    + byte_at h (i + 3) * 2 ^ 32
    + byte_at h (i + 4) * 2 ^ 24
    + byte_at h (i + 5) * 2 ^ 16
    + byte_at h (i + 6) * 256
    + byte_at h (i + 7)

-- `CACHEMAGIC` with its NUL, and `CACHEVERSION` in its field of four bytes.
abbrev pub cache_magic : List ℕ
cache_magic = b't' ∷ b'c' ∷ b'p' ∷ b'p' ∷ b'r' ∷ b'e' ∷ b'p' ∷ 0 ∷ []

abbrev pub cache_version : List ℕ
cache_version = b'0' ∷ b'4' ∷ 0 ∷ 0 ∷ []

-- `sizeof(tcpr_cache_file_hdr_t)`, a packed struct: 8 + 4 + 8 + 2 + 2 bytes.
abbrev pub header_size : ℕ
header_size = 24

abbrev pub comment_bytes : Option (List ℕ) → List ℕ
comment_bytes none = []
comment_bytes (some c) = c

abbrev pub header_of : ℕ → List ℕ → List ℕ
header_of numpackets comment =
    cache_magic
    ++ cache_version
    ++ be64 (u64 numpackets)
    ++ be16 packets_per_byte
    ++ be16 (u16 (length comment))

-- The bytes that a file needs for its packets, by the stride that it states.
abbrev pub bytes_for : ℕ → ℕ → ℕ
bytes_for packets stride = packets / stride + (if packets % stride == 0 then 0 else 1)

-- The bytes of a block that hold packets.
abbrev pub used_bytes : ℕ → ℕ
used_bytes packets =
    if packets % packets_per_byte == 0
    then packets / packets_per_byte
    else packets / packets_per_byte + 1

abbrev pub bytes_eq : List ℕ → List ℕ → Bool
bytes_eq [] [] = true
bytes_eq [] (y ∷ ys) = false
bytes_eq (x ∷ xs) [] = false
bytes_eq (x ∷ xs) (y ∷ ys) = if x == y then bytes_eq xs ys else false

abbrev pub version_number : ℤ
version_number = pos 4

same_version : ℤ → Bool
same_version (pos n) = n == 4
same_version (negsuc n) = false

module _ (os : Os) where
  -- One `write` and the test of its result.
  abbrev pub put_all : List ℕ → List ℕ → Option ℕ → Run (List ℕ)
  put_all file buffer none = exits short_write
  put_all file buffer (some n) =
      if n == length buffer then ok (file ++ buffer) else exits short_write

  unfoldable pub put : List ℕ → List ℕ → Run (List ℕ)
  put file buffer = put_all file buffer (os.write file buffer)

  -- `while (!last)`: from the first block to the last.
  unfoldable pub write_blocks : List Block → List ℕ → ℕ → Run (List ℕ × ℕ)
  unfolding put
  write_blocks [] file packets = ok (file, packets)
  write_blocks (b ∷ bs) file packets = do
    file' ← put file (take (u32 (used_bytes b.packets)) b.bytes)
    write_blocks bs file' (u64 (packets + b.packets))

  abbrev pub put_comment : List ℕ → Option (List ℕ) → Run (List ℕ)
  put_comment file none = ok file
  put_comment file (some comment) = put file comment

  abbrev pub blocks_of : Option Chain → List Block
  blocks_of none = []
  blocks_of (some c) = c.before ++ (c.last ∷ [])

  -- The file that is written, and the number of packets that is returned.
  unfoldable pub write_cache : Option Chain → ℕ → Option (List ℕ) → Run (List ℕ × ℕ)
  unfolding write_blocks put
  write_cache cachedata numpackets comment = do
    with_header ← put [] (header_of numpackets (comment_bytes comment))
    with_comment ← put_comment with_header comment
    write_blocks (blocks_of cachedata) with_comment 0

  -- One `read`: what it delivers and what the file has left.
  abbrev pub got : List ℕ → Option ℕ → Run (List ℕ × List ℕ)
  got rest none = exits read_failed
  got rest (some n) = ok (take n rest, drop n rest)

  unfoldable pub get : List ℕ → ℕ → Run (List ℕ × List ℕ)
  get rest n = got rest (os.read rest n)

  abbrev pub opened : Option (List ℕ) → Run (List ℕ)
  opened none = exits open_failed
  opened (some file) = ok file

  -- The number of packets, the cache data and the comment.
  unfoldable pub read_cache : Option (List ℕ) → Run (ℕ × List ℕ × List ℕ)
  unfolding get same_version strtol10
  read_cache cachefile = do
    file ← opened cachefile
    header_read ← get file header_size
    let header = header_read.0
    exit_if (ltb (length header) header_size) short_header
    exit_if (if bytes_eq (take 8 header) cache_magic then false else true) bad_magic
    exit_if (if same_version (strtol10 (drop 8 header)).value then false else true) bad_version
    let comment_len = get_be16 header 22
    exit_if (ltb 65534 comment_len) bad_comment_length
    comment_read ← get header_read.1 comment_len
    exit_if (if length comment_read.0 == comment_len then false else true) short_comment
    let num_packets = get_be64 header 12
    exit_if (if get_be16 header 20 == packets_per_byte then false else true) bad_stride
    let cache_size = bytes_for num_packets (get_be16 header 20)
    data_read ← get comment_read.1 cache_size
    exit_if (if length data_read.0 == cache_size then false else true) short_data
    ok (num_packets, data_read.0, comment_read.0)
