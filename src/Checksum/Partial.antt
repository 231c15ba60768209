-- ===== src/Checksum/Partial.antt =====
-- `do_csum` and `csum_partial` of src/tcpedit/incremental_checksum.c on a little-endian host, and
-- `csum_replace16` of its header. A block of memory is its bytes and the address that it starts at.
pub mod Sum
use tcpreplay.Prelude.{
  ℕ, ◌+◌, ◌-◌, ◌*◌, ◌/◌, ◌%◌, ◌^◌, Bool, true, false, List, [], ◌∷◌, ◌++◌, ltb, leb, ◌==◌, u16, u32,
  not32, ◌>>>◌, ◌<<<◌, if◌then◌else◌, length, drop, take,
}
use tcpreplay.Checksum.{bit, csum_fold, csum_unfold}

unfoldable pub from32to16 : ℕ → ℕ
from32to16 x = let once = u32 (x % 2 ^ 16 + x >>> 16) in u16 (u32 (once % 2 ^ 16 + once >>> 16))

-- `*(unsigned short *)buff`, with the bytes behind it; past the block nothing is added.
abbrev pub short_at : List ℕ → ℕ
short_at [] = 0
short_at (b ∷ []) = b
short_at (b ∷ c ∷ bs) = b + c * 256

abbrev pub byte_at : List ℕ → ℕ
byte_at [] = 0
byte_at (b ∷ bs) = b

-- The sum, the carry and the bytes that a stage leaves.
pub record Stage : Type 0 where
  pub result : ℕ
  pub left : List ℕ

-- The `do … while` over four bytes at a time, from `result` and `carry` on; then the last carry is
-- added and the upper half folded in.
unfoldable pub word_loop : List ℕ → ℕ → ℕ → Stage
word_loop (a ∷ b ∷ c ∷ d ∷ bs) result carry =
    let w = a + b * 256 + c * 65536 + d * 16777216 in
    let sum = u32 (u32 (result + carry) + w) in word_loop bs sum (bit (ltb sum w))
word_loop bs result carry =
    let total = u32 (result + carry) in
    record { result = u32 (total % 2 ^ 16 + total >>> 16); left = bs }

-- `odd`: the first byte is the upper half of a word.
unfoldable pub odd_stage : ℕ → List ℕ → Stage
odd_stage addr bytes =
    if addr % 2 == 1
    then record { result = byte_at bytes <<< 8; left = drop 1 bytes }
    else record { result = 0; left = bytes }

-- `2 & (unsigned long)buff`, where the address has become even.
unfoldable pub short_stage : ℕ → Stage → Stage
short_stage addr s =
    if (addr + addr % 2) / 2 % 2 == 1
    then record { result = u32 (s.result + short_at s.left); left = drop 2 s.left }
    else s

unfoldable pub words_stage : Stage → Stage
words_stage s = if leb 4 (length s.left) then word_loop s.left s.result 0 else s

unfoldable pub last_short_stage : Stage → Stage
last_short_stage s =
    if length s.left / 2 % 2 == 1
    then record { result = u32 (s.result + short_at s.left); left = drop 2 s.left }
    else s

unfoldable pub last_byte_stage : Stage → ℕ
last_byte_stage s = if length s.left % 2 == 1 then u32 (s.result + byte_at s.left) else s.result

unfoldable pub even_part : ℕ → Stage → Stage
even_part addr s =
    if leb 2 (length s.left) then last_short_stage (words_stage (short_stage addr s)) else s

unfoldable pub do_csum : ℕ → List ℕ → ℕ
do_csum addr bytes =
    let result = from32to16 (last_byte_stage (even_part addr (odd_stage addr bytes))) in
    if length bytes == 0
    then 0
    else if addr % 2 == 1
    then result >>> 8 % 256 + (result % 256) <<< 8
    else result

unfoldable pub csum_partial : ℕ → List ℕ → ℕ → ℕ
csum_partial addr bytes wsum =
    let result = u32 (do_csum addr bytes + wsum) in
    if ltb result wsum then u32 (result + 1) else result

-- The four bytes of a 32-bit field as they lie in memory.
abbrev pub le32 : ℕ → List ℕ
le32 x = x % 256 ∷ x / 256 % 256 ∷ x / 65536 % 256 ∷ x / 16777216 % 256 ∷ []

-- An address of 128 bits, as its four words.
pub record Quad : Type 0 where
  pub w0 : ℕ
  pub w1 : ℕ
  pub w2 : ℕ
  pub w3 : ℕ

abbrev pub diff_of : Quad → Quad → List ℕ
diff_of from to =
    le32 (not32 from.w0)
    ++ le32 (not32 from.w1)
    ++ le32 (not32 from.w2)
    ++ le32 (not32 from.w3)
    ++ le32 to.w0
    ++ le32 to.w1
    ++ le32 to.w2
    ++ le32 to.w3

-- `addr` is where the compiler puts `diff`.
unfoldable pub csum_replace16 : ℕ → ℕ → Quad → Quad → ℕ
csum_replace16 addr sum from to =
    csum_fold (csum_partial addr (diff_of from to) (not32 (csum_unfold sum)))
