-- ===== src/Cache/File/Safety.antt =====
-- What `read_cache` accepts can be walked by `check_cache`, whatever the file held.
use tcpreplay.Prelude.{
  ℕ, ◌+◌, ◌-◌, ◌*◌, ◌/◌, ◌%◌, ◌<◌, ◌≡◌, List, Option, arith, length, u32, get_or,
}
use tcpreplay.Cache.{Dir, found, check_cache, check_byte, packets_per_byte, bits_per_packet}
use tcpreplay.Cache.File.{Os, ok, read_cache, used_bytes}

read_cache-length :
    (os : Os) (file : Option (List ℕ)) (n : ℕ) (buffer comment : List ℕ)
    → read_cache os file ≡ ok (n, buffer, comment)
    → length buffer ≡ used_bytes n
unfolding read_cache
read_cache-length os file n buffer comment h = ground arith

-- No file makes `check_cache` read out of bounds: every packet id from 1 to the number that
-- `read_cache` returned is answered with a direction.
pub read_cache-safe :
    (os : Os) (file : Option (List ℕ)) (n : ℕ) (buffer comment : List ℕ) (i : ℕ)
    → read_cache os file ≡ ok (n, buffer, comment)
    → i < n
    → (d : Dir) × (check_cache buffer (i + 1) ≡ found d)
unfolding check_cache
read_cache-safe os file n buffer comment i h lt = (
  check_byte (get_or buffer ((i + 1 - 1) / packets_per_byte) 0)
      (u32 ((i + 1 - 1) % packets_per_byte * bits_per_packet) + 1),
  ground (arith, read_cache-length os file n buffer comment h),
)
