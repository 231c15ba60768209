-- ===== src/Cache/Tests.antt =====
-- The cache at concrete packets.
use tcpreplay.Prelude.{ℕ, ◌+◌, ◌≡◌, refl, List, [], ◌∷◌, ◌++◌, some, none, min, arith, length}
use tcpreplay.Cache.{Dir, nosend, c2s, s2c, add_cache, check_cache, exits, found, out_of_range}
use tcpreplay.Cache.Blocks.Steps.{Added, add_cache-Added}
use tcpreplay.Cache.Blocks.Run.{Call, record_all, direction_at}
use tcpreplay.Cache.File.{Os, ok, write_cache, read_cache, header_of}
use tcpreplay.Cache.File.Layout.{IsHonest}
use tcpreplay.Cache.File.RoundTrip.{cache_file_round_trip}
use tcpreplay.Cache.File.Safety.{read_cache-safe}

-- A disk that takes and delivers all that it can.
abbrev disk : Os
disk = record {
  write = λ file buffer. some (length buffer);
  read = λ rest n. some (min n (length rest));
}

disk-IsHonest : IsHonest disk
disk-IsHonest = record { writes_all = λ file buffer. refl; reads_all = λ rest n. refl }

-- Five packets, the latest first: the fifth takes a second byte.
abbrev five : List Call
five = (1, c2s) ∷ (1, s2c) ∷ (0, c2s) ∷ (1, c2s) ∷ (1, s2c) ∷ []

abbrev note : List ℕ
note = b'h' ∷ b'i' ∷ []

check_bytes :
    (check_cache (0xce ∷ 3 ∷ []) 1 ≡ found s2c)
    × (check_cache (0xce ∷ 3 ∷ []) 2 ≡ found c2s)
    × (check_cache (0x8c ∷ 3 ∷ []) 3 ≡ found nosend)
    × (check_cache (0x8c ∷ 3 ∷ []) 4 ≡ found s2c)
    × (check_cache (0x8c ∷ 3 ∷ []) 5 ≡ found c2s)
    × (check_cache (0x8c ∷ 3 ∷ []) 0 ≡ exits)
    × (check_cache (0x8c ∷ 3 ∷ []) 9 ≡ out_of_range)
unfolding check_cache
check_bytes = (refl, refl, refl, refl, refl, refl, refl)

write_five :
    write_cache disk (record_all five) 5 (some note)
    ≡ ok (header_of 5 note ++ (b'h' ∷ b'i' ∷ 0x8e ∷ 3 ∷ []), 5)
unfolding write_cache record_all add_cache
write_five = refl

add_cache-Added_example : Added none 1 c2s (add_cache none 1 c2s).0
add_cache-Added_example = add_cache-Added none 1 c2s tt

cache_file_round_trip_example :
    (file buffer : List ℕ) × (write_cache disk (record_all five) 5 (some note) ≡ ok (file, 5))
    × (read_cache disk (some file) ≡ ok (5, buffer, note))
    × (check_cache buffer (2 + 1) ≡ found (direction_at five 2))
cache_file_round_trip_example =
    cache_file_round_trip disk disk-IsHonest five (some note) 2 (omega arith) (omega arith)
      (omega arith)

abbrev two_packets : List ℕ
two_packets = header_of 2 [] ++ (0x0e ∷ [])

read_two : read_cache disk (some two_packets) ≡ ok (2, 0x0e ∷ [], [])
unfolding read_cache
read_two = refl

read_cache-safe_example : (d : Dir) × (check_cache (0x0e ∷ []) 2 ≡ found d)
read_cache-safe_example =
    read_cache-safe disk (some two_packets) 2 (0x0e ∷ []) [] 1 read_two (omega arith)
